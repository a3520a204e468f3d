-- ===== src/Ingress/Approval/Expiry.antt =====
-- src/ingress/approval.rs, `cleanup`: the entries that have timed out.
use zier_alpha.Prelude.Dict
use zier_alpha.Prelude.Dict.{
  Dict, Distinct, Fresh, keys, has, test_at, get-remove, get-remove_all, has-keys-keep, get-Fresh,
}
use zier_alpha.Prelude.{
  ℕ, ◌≡◌, refl, ap, ◌∙◌, String, List, [], ◌∷◌, map, none, some, Bool, arith, eq_iff, eq_refl,
  if◌then◌else◌, All, keep, Bool-cases, inl, inr,
}
use zier_alpha.Ingress.Approval.{PendingApproval, Pending, is_expired, remove_expired, cleanup}

abbrev pub row : String × PendingApproval → String × ℕ × ℕ
row e = (e.0, e.1.chat_id, e.1.message_id)

pub left-remove_expired :
    (ks : List String) (m : Pending) → (remove_expired ks m).1 ≡ Dict.remove_all ks m
unfolding remove_expired Dict.remove_all
left-remove_expired [] m = refl
left-remove_expired (k ∷ ks) m = ground (arith, left-remove_expired ks (Dict.remove k m))

-- Each entry is what the map holds for its key.
abbrev Held : Pending → Pending → Type 0
Held m = All (λ e. Dict.get e.0 m ≡ some e.1)

Held-remove : (k : String) (xs m : Pending) → Fresh k xs → Held m xs → Held (Dict.remove k m) xs
Held-remove k [] m h g = tt
Held-remove k ((j, e) ∷ xs) m (differ, h) (here, g) =
    (ground (arith, get-remove k j m, eq_iff j k, eq_iff k j), Held-remove k xs m h g)

out-remove_expired :
    (xs m : Pending) → Distinct xs → Held m xs → (remove_expired (keys xs) m).0 ≡ map row xs
unfolding remove_expired
out-remove_expired [] m h g = refl
out-remove_expired ((k, e) ∷ xs) m (new, h) (here, g) =
    ground (arith, out-remove_expired xs (Dict.remove k m) h (Held-remove k xs m new g))

Fresh-keep :
    (p : PendingApproval → Bool) (k : String) (m : Pending)
    → Fresh k m
    → Fresh k (keep (λ e. p e.1) m)
Fresh-keep p k [] h = tt
Fresh-keep p k ((j, e) ∷ m) h = ground (arith, Fresh-keep p k m h.1)

keep-Distinct :
    (p : PendingApproval → Bool) (m : Pending) → Distinct m → Distinct (keep (λ e. p e.1) m)
keep-Distinct p [] h = tt
keep-Distinct p ((k, e) ∷ m) h = ground (arith, keep-Distinct p m h.1, Fresh-keep p k m h.0)

Held-cons :
    (k : String) (e : PendingApproval) (xs m : Pending)
    → Fresh k xs
    → Held m xs
    → Held ((k, e) ∷ m) xs
unfolding Dict.get
Held-cons k e [] m h g = tt
Held-cons k e ((j, f) ∷ xs) m (differ, h) (here, g) =
    (ground (arith, eq_iff j k, eq_iff k j), Held-cons k e xs m h g)

keep-Held : (p : PendingApproval → Bool) (m : Pending) → Distinct m → Held m (keep (λ e. p e.1) m)
unfolding Dict.get
keep-Held p [] h = tt
keep-Held p ((k, e) ∷ m) (new, h) =
    let rest = Held-cons k e (keep (λ x. p x.1) m) m (Fresh-keep p k m new) (keep-Held p m h) in
    elim (Bool-cases (p e)) [
      | inl passes ↦ rw passes (rw (eq_refl k), rest)
      | inr fails ↦ rw fails rest
    ]

-- With one entry for each call, `cleanup` reports exactly the entries whose time has come, in the
-- order of the map, and afterwards a call has the entry that it had, or none if that was reported.
pub cleanup_lem :
    (now : ℕ) (m : Pending)
    → Distinct m
    → ((cleanup now m).0 ≡ map row (keep (λ e. is_expired now e.1) m))
      × ((k : String)
          → Dict.get k (cleanup now m).1
            ≡ (if test_at (is_expired now) (Dict.get k m) then none else Dict.get k m))
unfolding cleanup
cleanup_lem now m h =
    let xs = keep (λ e. is_expired now e.1) m in
    (
      out-remove_expired xs m (keep-Distinct (is_expired now) m h) (keep-Held (is_expired now) m h),
      λ k.
          ap (Dict.get k) (left-remove_expired (keys xs) m)
          ∙ get-remove_all (keys xs) k m
          ∙ ap (λ b. if b then none else Dict.get k m) (has-keys-keep (is_expired now) k m h),
    )
