-- ===== src/Core.antt =====
-- pkg/search/core/inf.go: the result type that the engines share, and the filter by score.
-- A float64 is a parameter, the type `F` with the comparisons that Go makes on it; nothing is
-- assumed of them here, so a NaN is among the values.
use websearch_mcpserver_dash.Prelude.{
  ℕ, String, Bool, false, ◌||◌, List, [], ◌∷◌, if◌then◌else◌, keep,
}

-- Go's float64: the constant 0, `a < b` and `a <= b`. `a > b` is `b < a`, and `a >= b` is `b <= a`.
pub record Float (F : Type 0) : Type 0 where
  pub nil : F
  pub lt : F → F → Bool
  pub le : F → F → Bool

-- The operations on float64: `dec n k` is the constant n / 10^k, `of_int` the conversion float64(n), and
-- `neg_inf` math.Inf(-1).
pub record Numbers (F : Type 0) : Type 0 where
  pub float : Float F
  pub add : F → F → F
  pub sub : F → F → F
  pub mul : F → F → F
  pub div : F → F → F
  pub dec : ℕ → ℕ → F
  pub of_int : ℕ → F
  pub neg_inf : F

pub record SearchResult (F : Type 0) : Type 0 where
  pub title : String
  pub url : String
  pub content : String
  pub publish_date : String
  pub score : F
  pub engine : String
  pub engines : List String
  pub kind : String
  pub authors : String
  pub doi : String
  pub journal : String
  pub cited_by : ℕ
  pub pdf_url : String

pub record ScoreBucket (F : Type 0) : Type 0 where
  pub name : String
  pub weight : F
  pub results : List (SearchResult F)

module _ {F : Type 0} (fl : Float F) where
  -- The loop that looks for a result with `Score > 0`.
  unfoldable pub has_score : List (SearchResult F) → Bool
  has_score [] = false
  has_score (r ∷ rs) = fl.lt fl.nil r.score || has_score rs

  abbrev pub at_least : F → SearchResult F → Bool
  at_least min r = fl.le min r.score

  unfoldable pub filter_by_score : List (SearchResult F) → F → List (SearchResult F)
  filter_by_score rs min =
      if fl.le min fl.nil then rs else if has_score rs then keep (at_least min) rs else rs
