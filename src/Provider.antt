-- ===== src/Provider.antt =====
-- pkg/search/provider: the engines that call a paid search API with a key of their pool.
mod Request
pub mod Tavily
pub mod Exa
pub mod Anysearch
pub mod Baidu
pub mod Doubao
pub mod DoubaoSearch
pub mod DoubaoLoop
pub mod Keyed
mod AllKeyed
mod Tests
