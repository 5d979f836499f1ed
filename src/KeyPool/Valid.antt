-- ===== src/KeyPool/Valid.antt =====
-- The shape of a pool that NewKeyPool builds and every method keeps.
use websearch_mcpserver_dash.Prelude.{◌<◌, String, ◌≡◌, length, Distinct}
use websearch_mcpserver_dash.KeyPool.State.{KeyPool, u64_mod}

abbrev pub itself : String → String
itself k = k

pub record IsValid (p : KeyPool) : Type 0 where
  pub nonempty : 0 < length p.keys
  pub matched : length p.states ≡ length p.keys
  pub distinct : Distinct itself p.keys
  pub counter : p.idx < u64_mod
