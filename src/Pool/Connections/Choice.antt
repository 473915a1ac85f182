-- ===== src/Pool/Connections/Choice.antt =====
-- The connection that is chosen, and how a connection ends.
use kanotls.Prelude.{
  ℕ, ◌≡◌, ◌⊎◌, refl, ap, sym, ◌∙◌, inl, inr, List, [], ◌∷◌, Option, none, some, true, false,
  Bool-cases, arith,
}
use kanotls.Pool.Connections.{
  PooledConnection, score, score_leb, is_eligible, better, select_from, select_active_connection,
  mark_draining, force_close_connection, drive_active, drive,
}

score_leb_refl : (xs : List ℕ) → score_leb xs xs ≡ true
unfolding score_leb
score_leb_refl [] = refl
score_leb_refl (x ∷ xs) = ground (arith, score_leb_refl xs)

score_leb_trans :
    (xs ys zs : List ℕ) → score_leb xs ys ≡ true → score_leb ys zs ≡ true → score_leb xs zs ≡ true
unfolding score_leb
score_leb_trans [] ys zs p q = refl
score_leb_trans (x ∷ xs) [] zs p q = cc
score_leb_trans (x ∷ xs) (y ∷ ys) [] p q = cc
score_leb_trans (x ∷ xs) (y ∷ ys) (z ∷ zs) p q = ground (arith, score_leb_trans xs ys zs)

score_leb_total : (xs ys : List ℕ) → score_leb xs ys ≡ false → score_leb ys xs ≡ true
unfolding score_leb
score_leb_total [] ys e = cc
score_leb_total (x ∷ xs) [] e = refl
score_leb_total (x ∷ xs) (y ∷ ys) e = ground (arith, score_leb_total xs ys)

-- No eligible connection of the list has a smaller score.
abbrev pub IsBest : ℕ → PooledConnection → List PooledConnection → Type 0
IsBest limit best [] = Unit {0}
IsBest limit best (c ∷ cs) =
    ((is_eligible limit c ≡ false) ⊎ (score_leb (score best) (score c) ≡ true))
    × IsBest limit best cs

-- It is one of the list.
abbrev pub IsAmong : PooledConnection → List PooledConnection → Type 0
IsAmong c [] = ⊥
IsAmong c (x ∷ xs) = (c ≡ x) ⊎ IsAmong c xs

abbrev pub NoneEligible : ℕ → List PooledConnection → Type 0
NoneEligible limit [] = Unit {0}
NoneEligible limit (c ∷ cs) = (is_eligible limit c ≡ false) × NoneEligible limit cs

abbrev IsBelow : PooledConnection → Option PooledConnection → Type 0
IsBelow c none = Unit {0}
IsBelow c (some best) = score_leb (score c) (score best) ≡ true

abbrev IsFrom : ℕ → PooledConnection → Option PooledConnection → List PooledConnection → Type 0
IsFrom limit c best cs = (best ≡ some c) ⊎ (IsAmong c cs × (is_eligible limit c ≡ true))

abbrev IsSelected :
    ℕ → Option PooledConnection → List PooledConnection → Option PooledConnection → Type 0
IsSelected limit best cs none = (best ≡ none) × NoneEligible limit cs
IsSelected limit best cs (some c) = IsFrom limit c best cs × IsBest limit c cs × IsBelow c best

nothing_more : (limit : ℕ) (best : Option PooledConnection) → IsSelected limit best [] best
nothing_more limit none = (refl, tt)
nothing_more limit (some c) = (inl refl, tt, score_leb_refl (score c))

-- A connection that is passed over.
skipped :
    (limit : ℕ) (best : Option PooledConnection) (e : PooledConnection) (cs : List PooledConnection)
    (r : Option PooledConnection)
    → is_eligible limit e ≡ false
    → IsSelected limit best cs r
    → IsSelected limit best (e ∷ cs) r
skipped limit best e cs none unfit (none_yet, rest) = (none_yet, (unfit, rest))
skipped limit best e cs (some c) unfit (from, least, below) = (
  (elim from as (λ _. IsFrom limit c best (e ∷ cs)) [
    | inl old ↦ inl old
    | inr (among, fit) ↦ inr (inr among, fit)
  ]),
  (inl unfit, least),
  below,
)

better-IsBelow :
    (best : Option PooledConnection) (e c : PooledConnection)
    → IsBelow c (better best e)
    → (score_leb (score c) (score e) ≡ true) × IsBelow c best
better-IsBelow none e c below = (below, tt)
better-IsBelow (some b) e c below = elim (Bool-cases (score_leb (score b) (score e))) [
  | inl kept ↦
      let under : score_leb (score c) (score b) ≡ true = rw kept at below in
      (score_leb_trans (score c) (score b) (score e) under kept, under)
  | inr new ↦
      let under : score_leb (score c) (score e) ≡ true = rw new at below in
      (
        under,
        score_leb_trans (score c) (score e) (score b) under
            (score_leb_total (score b) (score e) new),
      )
]

better-cases :
    (best : Option PooledConnection) (e : PooledConnection)
    → (better best e ≡ some e)
      ⊎ ((better best e ≡ best) × ((b : PooledConnection) × (best ≡ some b)))
better-cases none e = inl refl
better-cases (some b) e = elim (Bool-cases (score_leb (score b) (score e))) [
  | inl kept ↦ rw kept (inr (refl, (b, refl)))
  | inr new ↦ rw new (inl refl)
]

compared :
    (limit : ℕ) (best : Option PooledConnection) (e : PooledConnection) (cs : List PooledConnection)
    (r : Option PooledConnection)
    → is_eligible limit e ≡ true
    → IsSelected limit (better best e) cs r
    → IsSelected limit best (e ∷ cs) r
compared limit best e cs none fit (none_yet, rest) = elim (better-cases best e) [
  | inl new ↦ let never : none ≡ some e = sym none_yet ∙ new in cc
  | inr (kept, (b, old)) ↦ let never : none ≡ some b = sym none_yet ∙ kept ∙ old in cc
]
compared limit best e cs (some c) fit (from, least, below) =
    let (under, below_best) = better-IsBelow best e c below in
    (
      (elim from as (λ _. IsFrom limit c best (e ∷ cs)) [
        | inl old ↦ elim (better-cases best e) [
          | inl new ↦
              let same : c ≡ e = let both : some c ≡ some e = sym old ∙ new in cc in
              inr (inl same, ap (λ t. is_eligible limit t) same ∙ fit)
          | inr (kept, _) ↦ inl (sym kept ∙ old)
        ]
        | inr (among, good) ↦ inr (inr among, good)
      ]),
      (inr under, least),
      below_best,
    )

select_from-IsSelected :
    (limit : ℕ) (best : Option PooledConnection) (cs : List PooledConnection)
    → IsSelected limit best cs (select_from limit best cs)
unfolding select_from
select_from-IsSelected limit best [] = nothing_more limit best
select_from-IsSelected limit best (e ∷ cs) = elim (Bool-cases (is_eligible limit e)) [
  | inl fit ↦ rw fit (
      compared limit best e cs (select_from limit (better best e) cs) fit
        (select_from-IsSelected limit (better best e) cs))
  | inr unfit ↦ rw unfit (
      skipped limit best e cs (select_from limit best cs) unfit
        (select_from-IsSelected limit best cs))
]

-- Nothing is chosen if nothing is eligible; what is chosen is one of the connections, eligible, and no
-- other that is has a smaller score.
abbrev pub IsChoice : ℕ → List PooledConnection → Option PooledConnection → Type 0
IsChoice limit cs none = NoneEligible limit cs
IsChoice limit cs (some c) = IsAmong c cs × (is_eligible limit c ≡ true) × IsBest limit c cs

chosen :
    (limit : ℕ) (cs : List PooledConnection) (r : Option PooledConnection)
    → IsSelected limit none cs r
    → IsChoice limit cs r
chosen limit cs none (_, rest) = rest
chosen limit cs (some c) (from, least, _) = elim from [
  | inl old ↦ cc
  | inr (among, fit) ↦ (among, fit, least)
]

-- If no connection is eligible, that is active, alive, not closing and below the limit of streams,
-- none is chosen. Otherwise the choice is one of the eligible connections, and no eligible one has
-- a smaller score.
pub select_active_connection-IsChoice :
    (limit : ℕ) (connections : List PooledConnection)
    → IsChoice limit connections (select_active_connection limit connections)
unfolding select_active_connection
select_active_connection-IsChoice limit cs =
    chosen limit cs (select_from limit none cs) (select_from-IsSelected limit none cs)

drive_active-alive :
    (now : ℕ) (idle_since : Option ℕ) (c : PooledConnection)
    → (drive_active now idle_since c).0.is_alive ≡ c.is_alive
unfolding drive_active mark_draining
drive_active-alive now idle_since c = ground arith

-- The monitor's step ends a connection that is alive only if its session is closing already or has
-- no active stream.
pub drive_ends :
    (now : ℕ) (idle_since : Option ℕ) (c : PooledConnection)
    → c.is_alive ≡ true
    → (drive now idle_since c).0.is_alive ≡ false
    → (c.is_closing ≡ true) ⊎ (c.active_streams ≡ 0)
unfolding drive force_close_connection
drive_ends now idle_since c alive ended = ground (arith, drive_active-alive now idle_since c)
