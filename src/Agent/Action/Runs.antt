-- ===== src/Agent/Action/Runs.antt =====
-- What a run of several actions that replied did, one action after another.
use zier_alpha.Prelude.{◌≡◌, ◌≢◌, refl, ap}
use zier_alpha.Agent.Action.{Reply, replied, raised, out_of_fuel, Action, after, ◌>>=◌}

module _ {ℓ} {S A B : Type ℓ} where
  after-replied :
      (r : Reply A) (f : A → Action S B) (s : S) (b : B) (s' : S)
      → after r f s ≡ (replied b, s')
      → (a : A) × (r ≡ replied a) × (f a s ≡ (replied b, s'))
  after-replied (replied a) f s b s' h = (a, refl, h)
  after-replied (raised e) f s b s' h = absurd (cc)
  after-replied out_of_fuel f s b s' h = absurd (cc)

  -- A sequence that replies: its first action replied, and the second went on from there.
  pub >>=-replied :
      (m : Action S A) (f : A → Action S B) (s : S) (b : B) (s' : S)
      → (m >>= f) s ≡ (replied b, s')
      → (a : A) × (m s ≡ (replied a, (m s).1)) × (f a (m s).1 ≡ (replied b, s'))
  unfolding ◌>>=◌
  >>=-replied m f s b s' h =
      let (a, first, second) = after-replied (m s).0 f (m s).1 b s' h in
      (a, ap (λ r. (r, (m s).1)) first, second)

-- A property that an action keeps, whether it replies or not.
abbrev pub Keeps {ℓ} : {S A : Type ℓ} → (S → Type ℓ) → Action S A → Type ℓ
Keeps {S = S} P m = (s : S) → P s → P (m s).1

module _ {ℓ} {S A B : Type ℓ} (P : S → Type ℓ) where
  after-keeps :
      (r : Reply A) (f : A → Action S B) (s : S)
      → P s
      → ((a : A) → Keeps P (f a))
      → P (after r f s).1
  after-keeps (replied a) f s h g = g a s h
  after-keeps (raised e) f s h g = h
  after-keeps out_of_fuel f s h g = h

  pub >>=-Keeps :
      (m : Action S A) (f : A → Action S B)
      → Keeps P m
      → ((a : A) → Keeps P (f a))
      → Keeps P (m >>= f)
  unfolding ◌>>=◌
  >>=-Keeps m f km kf s h = after-keeps (m s).0 f (m s).1 (km s h) kf

-- An action that has enough fuel wherever the property holds, and keeps the property.
abbrev pub Ends {ℓ} : {S A : Type ℓ} → (S → Type ℓ) → Action S A → Type ℓ
Ends {S = S} P m = (s : S) → P s → ((m s).0 ≢ out_of_fuel) × P (m s).1

module _ {ℓ} {S A B : Type ℓ} (P : S → Type ℓ) where
  after-Ends :
      (r : Reply A) (f : A → Action S B) (s : S)
      → r ≢ out_of_fuel
      → P s
      → ((a : A) → Ends P (f a))
      → (((after r f s).0 ≢ out_of_fuel) × P (after r f s).1)
  after-Ends (replied a) f s ran h g = g a s h
  after-Ends (raised e) f s ran h g = ((λ same. absurd (cc)), h)
  after-Ends out_of_fuel f s ran h g = absurd (ran refl)

  pub >>=-Ends :
      (m : Action S A) (f : A → Action S B) → Ends P m → ((a : A) → Ends P (f a)) → Ends P (m >>= f)
  unfolding ◌>>=◌
  >>=-Ends m f em ef s h = let (ran, kept) = em s h in after-Ends (m s).0 f (m s).1 ran kept ef
