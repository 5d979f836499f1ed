-- ===== src/Dashboard/Joins.antt =====
-- What the join of a source's aliases shows (pkg/dashboard/sources.go).
use websearch_mcpserver_dash.Prelude.{
  ℕ, ◌+◌, String, Bool, true, false, ◌≡◌, refl, Option, none, some, List, [], ◌∷◌, arith,
  if◌then◌else◌, str_eq, eq_iff, tally,
}
use websearch_mcpserver_dash.Telemetry.Store.{DailyUsage}
use websearch_mcpserver_dash.Dashboard.Sources.{
  Observed, Joining, added, add_kind, add_kinds, merge_error_kind_counts, later, is_newer, by_name,
  join_candidate, join_aliases,
}

-- How often a kind is counted in a list of counts.
unfoldable pub kind_count : String → List (String × ℕ) → ℕ
kind_count kind [] = 0
kind_count kind ((k, n) ∷ ks) = (if str_eq kind k then n else 0) + kind_count kind ks

kind_count-add_kind :
    (x kind : String) (n : ℕ) (ks : List (String × ℕ))
    → kind_count x (add_kind kind n ks) ≡ kind_count x ks + (if str_eq x kind then n else 0)
unfolding kind_count add_kind
kind_count-add_kind x kind n [] = omega arith
kind_count-add_kind x kind n ((k, m) ∷ ks) =
    ground (arith, kind_count-add_kind x kind n ks, eq_iff kind k, eq_iff x k, eq_iff x kind)

kind_count-add_kinds :
    (x : String) (ks counts : List (String × ℕ))
    → kind_count x (add_kinds ks counts) ≡ kind_count x ks + kind_count x counts
unfolding kind_count add_kinds
kind_count-add_kinds x [] counts = omega arith
kind_count-add_kinds x ((k, n) ∷ ks) counts =
    omega (arith, kind_count-add_kinds x ks (add_kind k n counts), kind_count-add_kind x k n counts)

module _ (sort_kinds : List (String × ℕ) → List (String × ℕ))
    (keeps : (x : String) (ks : List (String × ℕ))
      → kind_count x (sort_kinds ks) ≡ kind_count x ks) where
  pub kind_count-merge :
      (x : String) (current incoming : List (String × ℕ))
      → kind_count x (merge_error_kind_counts sort_kinds current incoming)
        ≡ kind_count x current + kind_count x incoming
  unfolding merge_error_kind_counts kind_count
  kind_count-merge x current [] = omega arith
  kind_count-merge x current (k ∷ ks) = ground (
    arith,
    keeps x (add_kinds (k ∷ ks) (add_kinds current [])),
    kind_count-add_kinds x (k ∷ ks) (add_kinds current []),
    kind_count-add_kinds x current [],
  )

not-later : (a b c : Option ℕ) → later a b ≡ false → later c b ≡ true → later a c ≡ false
not-later none b c h k = refl
not-later (some a) none c h k = absurd (cc h)
not-later (some a) (some b) none h k = absurd (cc k)
not-later (some a) (some b) (some c) h k = ground (arith, h, k)

later_irrefl : (a : Option ℕ) → later a a ≡ false
later_irrefl none = refl
later_irrefl (some a) = ground arith

module _ {F : Type 0} where
  -- The observed sources to which the aliases lead, in their order.
  unfoldable pub candidates : List (Observed F) → List String → List (Observed F)
  candidates observed [] = []
  candidates observed (a ∷ rest) = elim (by_name a observed) [
    | none ↦ candidates observed rest
    | some c ↦ c ∷ candidates observed rest
  ]

  unfoldable pub total : (Observed F → ℕ) → List (Observed F) → ℕ
  total f [] = 0
  total f (c ∷ cs) = f c + total f cs

  module _ (sort_kinds : List (String × ℕ) → List (String × ℕ)) (id : String) where
    unfoldable pub join_all : List (Observed F) → Joining F → Joining F
    join_all [] j = j
    join_all (c ∷ cs) j = join_all cs (join_candidate sort_kinds id c j)

    pub join_aliases-all :
        (observed : List (Observed F)) (aliases : List String) (j : Joining F)
        → join_aliases sort_kinds id observed aliases j ≡ join_all (candidates observed aliases) j
    unfolding join_aliases join_all candidates
    join_aliases-all observed [] j = refl
    join_aliases-all observed (a ∷ rest) j =
        by_alias (by_name a observed) (join_aliases-all observed rest)
      where
        by_alias :
            (o : Option (Observed F))
            → ((k : Joining F)
                → join_aliases sort_kinds id observed rest k
                  ≡ join_all (candidates observed rest) k)
            → elim o [
              | none ↦ join_aliases sort_kinds id observed rest j
              | some c ↦ join_aliases sort_kinds id observed rest (join_candidate sort_kinds id c j)
            ]
              ≡ join_all
                  (elim o [
                    | none ↦ candidates observed rest
                    | some c ↦ c ∷ candidates observed rest
                  ])
                  j
        by_alias none ih = ih j
        by_alias (some c) ih = ih (join_candidate sort_kinds id c j)

    pub total-join_all :
        (f : DailyUsage → ℕ)
        → ((a b : DailyUsage) → f (added id a b) ≡ f a + f b)
        → (cs : List (Observed F)) (j : Joining F)
        → f (join_all cs j).today ≡ f j.today + total (λ c. f c.today) cs
    unfolding join_all total join_candidate
    total-join_all f adds [] j = omega arith
    total-join_all f adds (c ∷ cs) j =
        omega
          (arith, total-join_all f adds cs (join_candidate sort_kinds id c j), adds j.today c.today)

    is_newer-join_candidate :
        (c d : Observed F) (j : Joining F)
        → is_newer c j.chosen ≡ false
        → is_newer c (join_candidate sort_kinds id d j).chosen ≡ false
    unfolding join_candidate
    is_newer-join_candidate c d j h = by_chosen j.chosen h
      where
        by_chosen :
            (o : Option (Observed F))
            → is_newer c o ≡ false
            → is_newer c (if is_newer d o then some d else o) ≡ false
        by_chosen none h = absurd (cc h)
        by_chosen (some e) h = later_than (later d.health.last_seen_at e.health.last_seen_at) refl
          where
            later_than :
                (b : Bool)
                → later d.health.last_seen_at e.health.last_seen_at ≡ b
                → is_newer c (if b then some d else some e) ≡ false
            later_than true eq =
                not-later c.health.last_seen_at e.health.last_seen_at d.health.last_seen_at h eq
            later_than false eq = h

    is_newer-join_all :
        (c : Observed F) (cs : List (Observed F)) (j : Joining F)
        → is_newer c j.chosen ≡ false
        → is_newer c (join_all cs j).chosen ≡ false
    unfolding join_all
    is_newer-join_all c [] j h = h
    is_newer-join_all c (d ∷ cs) j h =
        is_newer-join_all c cs (join_candidate sort_kinds id d j) (is_newer-join_candidate c d j h)

    is_newer-own :
        (c : Observed F) (j : Joining F)
        → is_newer c (join_candidate sort_kinds id c j).chosen ≡ false
    unfolding join_candidate
    is_newer-own c j = by_newer (is_newer c j.chosen) refl
      where
        by_newer :
            (b : Bool)
            → is_newer c j.chosen ≡ b
            → is_newer c (if b then some c else j.chosen) ≡ false
        by_newer true eq = later_irrefl c.health.last_seen_at
        by_newer false eq = eq

    pub newest-join_all :
        (cs : List (Observed F)) (j : Joining F)
        → tally (λ c. is_newer c (join_all cs j).chosen) cs ≡ 0
    unfolding join_all tally
    newest-join_all [] j = refl
    newest-join_all (c ∷ cs) j =
        let step = join_candidate sort_kinds id c j in
        ground (arith, newest-join_all cs step, is_newer-join_all c cs step (is_newer-own c j))
