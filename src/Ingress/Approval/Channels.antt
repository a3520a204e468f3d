-- ===== src/Ingress/Approval/Channels.antt =====
-- src/ingress/approval.rs: the entries hold different channels, and go on to.
use zier_alpha.Prelude.Dict
use zier_alpha.Prelude.Dict.{
  Dict, keys, Each, Each-insert, Each-remove, Each-remove_all, Each-update, Each-get,
}
use zier_alpha.Prelude.{
  ℕ, ◌≡◌, sym, ap, subst, ◌∙◌, String, List, [], ◌∷◌, some, false, arith, ◌==◌, nat_eq, Bool-cases,
  inl, inr,
}
use zier_alpha.Ingress.Approval.{PendingApproval, Pending}

-- No two entries hold the same channel.
abbrev pub Other : ℕ → Pending → Type 0
Other t = Each (λ k e. nat_eq e.tx t ≡ false)

abbrev pub Apart : Pending → Type 0
Apart [] = Unit
Apart ((k, e) ∷ m) = Other e.tx m × Apart m

pub Each-map {ℓ κ} :
    {V : Type ℓ} (P Q : String → V → Type κ)
    → ((k : String) (v : V) → P k v → Q k v)
    → (m : Dict V) → Each P m
    → Each Q m
Each-map P Q f [] h = tt
Each-map P Q f ((k, v) ∷ m) h = (f k v h.0, Each-map P Q f m h.1)

pub Each-both {ℓ κ} :
    {V : Type ℓ} (P Q : String → V → Type κ) (m : Dict V)
    → Each P m
    → Each Q m
    → Each (λ k v. P k v × Q k v) m
Each-both P Q [] h g = tt
Each-both P Q ((k, v) ∷ m) h g = ((h.0, g.0), Each-both P Q m h.1 g.1)

pub Apart-remove : (k : String) (m : Pending) → Apart m → Apart (Dict.remove k m)
unfolding Dict.remove
Apart-remove k [] h = tt
Apart-remove k ((j, e) ∷ m) h = elim (Bool-cases (j == k)) [
  | inl here ↦ rw here (Apart-remove k m h.1)
  | inr away ↦ rw away (Each-remove (λ i f. nat_eq f.tx e.tx ≡ false) k m h.0, Apart-remove k m h.1)
]

pub Apart-remove_all : (ks : List String) (m : Pending) → Apart m → Apart (Dict.remove_all ks m)
unfolding Dict.remove_all
Apart-remove_all [] m h = h
Apart-remove_all (k ∷ ks) m h = Apart-remove_all ks (Dict.remove k m) (Apart-remove k m h)

pub Apart-insert :
    (k : String) (e : PendingApproval) (m : Pending)
    → Other e.tx m
    → Apart m
    → Apart (Dict.insert k e m)
unfolding Dict.insert
Apart-insert k e [] o h = (tt, tt)
Apart-insert k e ((j, f) ∷ m) o h = elim (Bool-cases (j == k)) [
  | inl here ↦ rw here (o.1, h.1)
  | inr away ↦ rw away (
    Each-insert (λ i g. nat_eq g.tx f.tx ≡ false) k e m (ground arith) h.0,
    Apart-insert k e m o.1 h.1,
  )
]

-- Once an entry is removed, no other has its channel.
pub Other-remove :
    (k : String) (e : PendingApproval) (m : Pending)
    → Dict.get k m ≡ some e
    → Apart m
    → Other e.tx (Dict.remove k m)
unfolding Dict.get Dict.remove
Other-remove k e [] there h = tt
Other-remove k e ((j, f) ∷ m) there h = elim (Bool-cases (j == k)) [
  | inl here ↦
      let same : f ≡ e = ground arith in
      rw here (rw (← same) (Each-remove (λ i g. nat_eq g.tx f.tx ≡ false) k m h.0))
  | inr away ↦
      let later : Dict.get k m ≡ some e = ground arith in
      let differ : nat_eq e.tx f.tx ≡ false =
        Each-get (λ i g. nat_eq g.tx f.tx ≡ false) k m e h.0 later in
      rw away (ground arith, Other-remove k e m later h.1)
]

pub Apart-update :
    (k : String) (f : PendingApproval → PendingApproval) (m : Pending)
    → ((e : PendingApproval) → (f e).tx ≡ e.tx)
    → Apart m
    → Apart (Dict.update k f m)
unfolding Dict.update
Apart-update k f [] keeps h = tt
Apart-update k f ((j, e) ∷ m) keeps h = elim (Bool-cases (j == k)) [
  | inl here ↦ rw here (subst (λ t. Other t m) (sym (keeps e)) h.0, h.1)
  | inr away ↦ rw away (
    Each-update (λ i g. nat_eq g.tx e.tx ≡ false) k f m
        (λ i g p. ap (λ t. nat_eq t e.tx) (keeps g) ∙ p) h.0,
    Apart-update k f m keeps h.1,
  )
]
