-- ===== src/Pass/Backend/Listed.antt =====
-- src/pass/backend.rs: a listing is complete, or an error that a command gave.
use cosmic_pass.Base.{
  ℕ, zero, suc, ◌≡◌, refl, sym, ◌∙◌, ap, some, List, [], ◌∷◌, ◌++◌, map, get_elem?, ◌⊎◌, inl, inr,
  Option-cases, unwrap_or, subst,
}
use cosmic_pass.Domain.Items.{Vault, ItemSummary, Listing}
use cosmic_pass.Pass.Error.{PassError, Result, ok, err}
use cosmic_pass.Pass.Parse.Output.{Answers}
use cosmic_pass.Pass.Backend.{
  Runner, and_then_ok, error_at, collect, first_error, try_join_all, flatten, list_vaults,
  list_vault, list_all,
}

value_or : {A : Type 0} → A → Result A → A
value_or d (ok a) = a
value_or d (err e) = d

error_or : {A : Type 0} → PassError → Result A → PassError
error_or d (ok a) = d
error_or d (err e) = e

ok_injective : {A : Type 0} {a b : A} → ok a ≡ ok b → a ≡ b
unfolding value_or
ok_injective {a} h = ap (value_or a) h

err_injective : {A : Type 0} {e f : PassError} → ◌≡◌ {A = Result A} (err e) (err f) → e ≡ f
unfolding error_or
err_injective {e} h = ap (error_or e) h

abbrev cons_ok : {A : Type 0} → Result A → Result (List A) → Result (List A)
cons_ok r s = and_then_ok r (λ a. and_then_ok s (λ xs. ok (a ∷ xs)))

cons_ok-ok :
    {A : Type 0} (r : Result A) (s : Result (List A)) (all : List A)
    → cons_ok r s ≡ ok all
    → (a : A) × (xs : List A) × (r ≡ ok a) × (s ≡ ok xs) × (a ∷ xs ≡ all)
cons_ok-ok (ok a) (ok xs) all h = (a, xs, refl, refl, ok_injective h)
cons_ok-ok (ok a) (err e) all h = absurd (cc h)
cons_ok-ok (err e) s all h = absurd (cc h)

cons_ok-err :
    {A : Type 0} (r : Result A) (s : Result (List A)) (e : PassError)
    → cons_ok r s ≡ err e
    → (r ≡ err e) ⊎ (s ≡ err e)
cons_ok-err (ok a) (ok xs) e h = absurd (cc h)
cons_ok-err {A} (ok a) (err f) e h = inr (ap err (err_injective {A = List A} h))
cons_ok-err {A} (err f) s e h = inl (ap err (err_injective {A = List A} h))

some_injective : {e f : PassError} → some e ≡ some f → e ≡ f
some_injective {e} h = ap (λ o. unwrap_or o e) h

error_of : {A : Type 0} (r : Result A) (e : PassError) → error_at (some r) ≡ some e → r ≡ err e
error_of (ok a) e h = absurd (cc h)
error_of (err f) e h = ap err (some_injective h)

module _ (r : Runner) (a : Answers) where
  -- The items of some vaults: those of each vault's own listing, in the order of the vaults.
  pub data IsListed : List Vault → List ItemSummary → Type 0 where
    no_vault : IsListed [] []
    vault :
        (v : Vault) (xs : List ItemSummary) {vs : List Vault} {ys : List ItemSummary}
        → list_vault r a v ≡ ok xs
        → IsListed vs ys
        → IsListed (v ∷ vs) (xs ++ ys)

  -- A vault among some whose listing failed with an error.
  pub data FailsWith (e : PassError) : List Vault → Type 0 where
    here : (v : Vault) (vs : List Vault) → list_vault r a v ≡ err e → FailsWith e (v ∷ vs)
    there : (v : Vault) (vs : List Vault) → FailsWith e vs → FailsWith e (v ∷ vs)

  collect-IsListed :
      (vs : List Vault) (per : List (List ItemSummary))
      → collect (map (list_vault r a) vs) ≡ ok per
      → IsListed vs (flatten per)
  unfolding collect
  collect-IsListed [] per h = subst (λ p. IsListed [] (flatten p)) (ok_injective h) no_vault
  collect-IsListed (v ∷ vs) per h =
      let (xs, xss, k, l, e) =
        cons_ok-ok (list_vault r a v) (collect (map (list_vault r a) vs)) per h in
      subst (λ p. IsListed (v ∷ vs) (flatten p)) e (vault v xs k (collect-IsListed vs xss l))

  collect-FailsWith :
      (vs : List Vault) (e : PassError) → collect (map (list_vault r a) vs) ≡ err e → FailsWith e vs
  unfolding collect
  collect-FailsWith [] e h = absurd (cc h)
  collect-FailsWith (v ∷ vs) e h =
      elim (cons_ok-err (list_vault r a v) (collect (map (list_vault r a) vs)) e h) [
        | inl k ↦ here v vs k
        | inr k ↦ there v vs (collect-FailsWith vs e k)
      ]

  error_at-FailsWith :
      (vs : List Vault) (i : ℕ) (e : PassError)
      → error_at (get_elem? (map (list_vault r a) vs) i) ≡ some e
      → FailsWith e vs
  unfolding get_elem?
  error_at-FailsWith [] i e h = absurd (cc h)
  error_at-FailsWith (v ∷ vs) zero e h = here v vs (error_of (list_vault r a v) e h)
  error_at-FailsWith (v ∷ vs) (suc i) e h = there v vs (error_at-FailsWith vs i e h)

  first_error-FailsWith :
      (vs : List Vault) (order : List ℕ) (e : PassError)
      → first_error order (map (list_vault r a) vs) ≡ some e
      → FailsWith e vs
  unfolding first_error
  first_error-FailsWith vs [] e h = absurd (cc h)
  first_error-FailsWith vs (i ∷ order) e h =
      elim (Option-cases (error_at (get_elem? (map (list_vault r a) vs) i))) [
        | inl n ↦ first_error-FailsWith vs order e (rw (n, first_error) at h)
        | inr (f, n) ↦ error_at-FailsWith vs i e (n ∙ (rw (n, first_error) at h))
      ]

  join-FailsWith :
      (vs : List Vault) (order : List ℕ) (e : PassError)
      → try_join_all order (map (list_vault r a) vs) ≡ err e
      → FailsWith e vs
  unfolding try_join_all
  join-FailsWith vs order e h = elim (Option-cases (first_error order (map (list_vault r a) vs))) [
    | inl n ↦ collect-FailsWith vs e (rw (n, try_join_all) at h)
    | inr (f, n) ↦
        first_error-FailsWith vs order e
          (n ∙ ap some (err_injective {A = List (List ItemSummary)} (rw (n, try_join_all) at h)))
  ]

  join-IsListed :
      (vs : List Vault) (order : List ℕ) (per : List (List ItemSummary))
      → try_join_all order (map (list_vault r a) vs) ≡ ok per
      → IsListed vs (flatten per)
  unfolding try_join_all
  join-IsListed vs order per h = elim (Option-cases (first_error order (map (list_vault r a) vs))) [
    | inl n ↦ collect-IsListed vs per (rw (n, try_join_all) at h)
    | inr (f, n) ↦ absurd (cc (n, rw (n, try_join_all) at h))
  ]

  listed : (vaults : List Vault) (per : Result (List (List ItemSummary))) → Result Listing
  listed vaults per = and_then_ok per (λ xss. ok (record { vaults = vaults; items = flatten xss }))

  listed-ok :
      (vs : List Vault) (per : Result (List (List ItemSummary))) (l : Listing)
      → listed vs per ≡ ok l
      → ((xss : List (List ItemSummary)) → per ≡ ok xss → IsListed vs (flatten xss))
      → (vs ≡ l.vaults) × IsListed l.vaults l.items
  unfolding listed
  listed-ok vs (ok xss) l h k =
      subst (λ m. (vs ≡ m.vaults) × IsListed m.vaults m.items) (ok_injective h) (refl, k xss refl)
  listed-ok vs (err e) l h k = absurd (cc h)

  listed-err :
      (vs : List Vault) (per : Result (List (List ItemSummary))) (e : PassError)
      → listed vs per ≡ err e
      → per ≡ err e
  unfolding listed
  listed-err vs (ok xss) e h = absurd (cc h)
  listed-err vs (err f) e h = ap err (err_injective {A = Listing} h)

  all_of : Result (List Vault) → List ℕ → Result Listing
  all_of vaults order =
      and_then_ok vaults (λ vs. listed vs (try_join_all order (map (list_vault r a) vs)))

  list_all_lem : (order : List ℕ) → list_all r a order ≡ all_of (list_vaults r a) order
  unfolding list_all listed all_of
  list_all_lem order = refl

  all_of-IsListed :
      (vaults : Result (List Vault)) (order : List ℕ) (l : Listing)
      → all_of vaults order ≡ ok l
      → (vaults ≡ ok l.vaults) × IsListed l.vaults l.items
  unfolding all_of
  all_of-IsListed (ok vs) order l h =
      let (same, from) =
        listed-ok vs (try_join_all order (map (list_vault r a) vs)) l h (join-IsListed vs order) in
      (ap ok same, from)
  all_of-IsListed (err e) order l h = absurd (cc h)

  -- A listing that succeeds has the vaults that the command for vaults gave, all of them and in their
  -- order, and the items of each: those of its own listing, in the order of the vaults, in whatever
  -- order the vaults' listings ended.
  pub list_all-IsListed :
      (order : List ℕ) (l : Listing)
      → list_all r a order ≡ ok l
      → (list_vaults r a ≡ ok l.vaults) × IsListed l.vaults l.items
  list_all-IsListed order l h =
      all_of-IsListed (list_vaults r a) order l (sym (list_all_lem order) ∙ h)

  all_of-Fails :
      (vaults : Result (List Vault)) (order : List ℕ) (e : PassError)
      → all_of vaults order ≡ err e
      → (vaults ≡ err e) ⊎ ((vs : List Vault) × (vaults ≡ ok vs) × FailsWith e vs)
  unfolding all_of
  all_of-Fails (ok vs) order e h = inr (
    vs,
    refl,
    join-FailsWith vs order e (listed-err vs (try_join_all order (map (list_vault r a) vs)) e h),
  )
  all_of-Fails (err f) order e h = inl (ap err (err_injective {A = Listing} h))

  -- The error of a listing that fails is the one that the list of vaults gave, or the one that the
  -- listing of one of its vaults gave.
  pub list_all-Fails :
      (order : List ℕ) (e : PassError)
      → list_all r a order ≡ err e
      → (list_vaults r a ≡ err e) ⊎ ((vs : List Vault) × (list_vaults r a ≡ ok vs) × FailsWith e vs)
  list_all-Fails order e h = all_of-Fails (list_vaults r a) order e (sym (list_all_lem order) ∙ h)
