-- ===== src/KeyPool/State.antt =====
-- The state of a pool and its methods (pkg/search/provider/keypool.go).
use websearch_mcpserver_dash.Prelude.{
  ℕ, zero, suc, ◌+◌, ◌-◌, ◌%◌, String, Bool, true, false, Option, none, some, List, [], ◌∷◌, ltb,
  ◌==◌, if◌then◌else◌, length, get_elem?, set, replicate, keep, str_eq, str_mem,
}
use mathlib.Core.Option

-- A `keyState` is its one field, `invalidUntil`.
abbrev pub KeyState : Type 0
KeyState = Option ℕ

pub record KeyPool : Type 0 where
  pub keys : List String
  pub states : List KeyState
  pub idx : ℕ
  pub last_key : Option String

-- 30 * time.Minute
abbrev pub key_invalid_ttl : ℕ
key_invalid_ttl = 1800000000000

-- The values of a uint64.
abbrev pub u64_mod : ℕ
u64_mod = 18446744073709551616

-- The loop of NewKeyPool; `trim` is strings.TrimSpace.
module _ (trim : String → String) where
  unfoldable pub filter_keys : List String → List String → List String
  filter_keys seen [] = []
  filter_keys seen (k ∷ ks) =
      let t = trim k in
      let skip = filter_keys seen ks in
      let add = t ∷ filter_keys (t ∷ seen) ks in
      if str_eq t "" then skip else if str_mem t seen then skip else add

  -- `none` is the error that there is no valid key.
  unfoldable pub new_key_pool : List String → Option KeyPool
  new_key_pool ks =
      let filtered = filter_keys [] ks in
      if length filtered == 0
      then none
      else some (record {
        keys = filtered;
        states = replicate (length filtered) none;
        idx = 0;
        last_key = none;
      })

-- `invalidUntil.IsZero() || now.After(invalidUntil)`
abbrev pub usable : ℕ → KeyState → Bool
usable now none = true
usable now (some t) = ltb t now

-- `idx.Add(1)`, on a uint64.
abbrev pub bump : ℕ → ℕ
bump c = (c + 1) % u64_mod

-- `(p.idx.Add(1) - 1) % n`
abbrev pub slot : ℕ → ℕ → ℕ
slot c n = ((bump c + u64_mod - 1) % u64_mod) % n

-- `if earliestRecover.IsZero() || invalidUntil.Before(earliestRecover)`
abbrev pub earlier : KeyState → KeyState → KeyState
earlier until none = until
earlier none (some e) = none
earlier (some u) (some e) = if ltb u e then some u else some e

-- How the first loop of Next ends: with a key, past its last round, or in a panic.
pub data Scan : Type 0 where
  found : KeyPool → String → Scan
  exhausted : KeyPool → KeyState → Scan
  out_of_range : Scan

-- A usable key is taken: its mark is cleared, and it becomes `lastKey`.
abbrev pub take_slot : KeyPool → ℕ → Option String → Scan
take_slot p i none = out_of_range
take_slot p i (some k) = found (record p { states = set p.states i none; last_key = some k }) k

-- The first loop of Next, over the rounds that are left.
unfoldable pub scan : ℕ → ℕ → KeyPool → KeyState → Scan
scan now zero p earliest = exhausted p earliest
scan now (suc r) p earliest =
    let i = slot p.idx (length p.keys) in
    let q : KeyPool = record p { idx = bump p.idx } in
    elim (get_elem? p.states i) [
      | none ↦ out_of_range
      | some until ↦
          let go_on = scan now r q (earlier until earliest) in
          if usable now until then take_slot q i (get_elem? p.keys i) else go_on
    ]

-- `invalidUntil.Equal(earliestRecover)`
abbrev pub same_time : KeyState → KeyState → Bool
same_time none none = true
same_time none (some b) = false
same_time (some a) none = false
same_time (some a) (some b) = a == b

-- The second loop of Next: the place of the first state with the given time.
unfoldable pub index_at_time : KeyState → List KeyState → Option ℕ
index_at_time e [] = none
index_at_time e (s ∷ ss) =
    let later = Option.map suc (index_at_time e ss) in if same_time s e then some 0 else later

abbrev pub return_key : KeyPool → Option String → Option (KeyPool × String)
return_key p none = none
return_key p (some k) = some (record p { last_key = some k }, k)

abbrev pub after_scan : Scan → Option (KeyPool × String)
after_scan (found p k) = some (p, k)
after_scan (exhausted p e) = elim (index_at_time e p.states) [
  | none ↦ return_key p (get_elem? p.keys 0)
  | some i ↦ return_key p (get_elem? p.keys i)
]
after_scan out_of_range = none

unfoldable pub next : ℕ → KeyPool → Option (KeyPool × String)
next now p = after_scan (scan now (length p.keys) p none)

-- The place of a key in the pool, as the loop of MarkInvalid finds it.
unfoldable pub index_of : String → List String → Option ℕ
index_of key [] = none
index_of key (k ∷ ks) =
    let later = Option.map suc (index_of key ks) in if str_eq k key then some 0 else later

unfoldable pub mark_invalid : ℕ → String → KeyPool → Option KeyPool
mark_invalid now key p = elim (index_of key p.keys) [
  | none ↦ some p
  | some i ↦
      if ltb i (length p.states)
      then some (record p { states = set p.states i (some (now + key_invalid_ttl)) })
      else none
]

unfoldable pub mark_last_invalid : ℕ → KeyPool → Option KeyPool
mark_last_invalid now p = elim p.last_key [ none ↦ some p | some key ↦ mark_invalid now key p ]

unfoldable pub len : KeyPool → ℕ
len p = length p.keys

unfoldable pub available : ℕ → KeyPool → ℕ
available now p = length (keep (usable now) p.states)
