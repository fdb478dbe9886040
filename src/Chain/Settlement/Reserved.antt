-- ===== src/Chain/Settlement/Reserved.antt =====
-- What live settlements reserve for a provider.
use gridix_infra.Models.Rows.{Uuid}
use gridix_infra.Chain.Settlement.{Books, ChainSettlement, ProviderSettlement, reserved_in, is_live}
use gridix_infra.Prelude.{
  [], ◌∷◌, true, inl, inr, refl, List, All, ◌<◌, Bool, ◌≤◌, any, ◌≡◌, ◌++◌, ◌==◌, ◌+◌, arith,
  filter, ◌&&◌, Bool-cases, sym, ap, if◌then◌else◌, ◌∙◌,
}

-- A live settlement has the id.
abbrev pub live_in : List ChainSettlement → Uuid → Bool
live_in rows id = any (λ row. row.id == id && is_live row.status) rows

abbrev pub IsFresh : Books → Type 0
IsFresh books = All (λ r. r.settlement_id < books.next_id) books.reservations

pub reserved_in-append :
    (rows : List ChainSettlement) (p : Uuid) (rs qs : List ProviderSettlement)
    → reserved_in rows p (rs ++ qs) ≡ reserved_in rows p rs + reserved_in rows p qs
reserved_in-append rows p [] qs = omega arith
reserved_in-append rows p (r ∷ rs) qs = ground (arith, reserved_in-append rows p rs qs)

pub reserved_in_mono :
    (rows next : List ChainSettlement) (p : Uuid) (rs : List ProviderSettlement)
    → ((id : Uuid) → live_in next id ≡ true → live_in rows id ≡ true)
    → reserved_in next p rs ≤ reserved_in rows p rs
reserved_in_mono rows next p [] h = omega arith
reserved_in_mono rows next p (r ∷ rs) h =
    let ih = reserved_in_mono rows next p rs h in
    elim (Bool-cases (live_in next r.settlement_id)) [
      | inl e ↦ let f = h r.settlement_id e in rw (e, f) (ground (arith, ih))
      | inr e ↦ rw e (ground (arith, ih))
    ]

pub reserved_in-filter :
    (rows : List ChainSettlement) (p : Uuid) (q : ProviderSettlement → Bool)
    (rs : List ProviderSettlement)
    → reserved_in rows p (filter q rs) ≤ reserved_in rows p rs
reserved_in-filter rows p q [] = omega arith
reserved_in-filter rows p q (r ∷ rs) = ground (arith, reserved_in-filter rows p q rs)

-- Rows with ids that no reservation has change nothing.
live_in-new :
    (rows new : List ChainSettlement) (id n : Uuid)
    → All (λ row. n ≤ row.id) new
    → id < n
    → live_in (rows ++ new) id ≡ true
    → live_in rows id ≡ true
live_in-new [] [] id n hs lt e = e
live_in-new [] (row ∷ new) id n (h, hs) lt e = live_in-new [] new id n hs lt (ground (arith, e))
live_in-new (row ∷ rows) new id n hs lt e = elim (Bool-cases (row.id == id && is_live row.status)) [
  | inl f ↦ rw f refl
  | inr f ↦
      let rest : live_in (rows ++ new) id ≡ true =
        sym (ap (λ b. if b then true else live_in (rows ++ new) id) f) ∙ e in
      rw f (live_in-new rows new id n hs lt rest)
]

pub reserved_in-new :
    (rows new : List ChainSettlement) (p n : Uuid) (rs : List ProviderSettlement)
    → All (λ row. n ≤ row.id) new
    → All (λ r. r.settlement_id < n) rs
    → reserved_in (rows ++ new) p rs ≤ reserved_in rows p rs
reserved_in-new rows new p n [] hs ks = omega arith
reserved_in-new rows new p n (r ∷ rs) hs (k, ks) =
    let ih = reserved_in-new rows new p n rs hs ks in
    elim (Bool-cases (live_in (rows ++ new) r.settlement_id)) [
      | inl e ↦
          let f = live_in-new rows new r.settlement_id n hs k e in rw (e, f) (ground (arith, ih))
      | inr e ↦ rw e (ground (arith, ih))
    ]
