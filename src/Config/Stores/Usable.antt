-- ===== src/Config/Stores/Usable.antt =====
-- The settings of the file store that pass their check.
use netwingfs.Prelude.{true, false, ◌||◌, ◌≡◌, refl, ◌⊎◌, inl, inr, [], arith, Bool-cases}
use mathlib.Core.Path.{subst}
use netwingfs.Prelude.Bytes.{Bytes, bytes_eq}
use netwingfs.Prelude.Int.{pos, ◌≤ℤ◌, eq_ℤ, eq_ℤ_iff}
use netwingfs.Config.{Outside, fail_if, pure, stop, ◌>>=◌}
use netwingfs.Config.Outcome.{
  Passes, Passes-weaken, Passes-any, Passes-pure, Passes-stop, Passes-bind, Passes-fail_if,
  Passes-fail_some, Passes-perform,
}
use netwingfs.Config.Stores.{
  HttpServerStore, HttpServerStoreFileLimits, check_file_limits, check_local_store, require,
  check_cloud, check_store_type, create_dir, check_valid,
}

-- A local store saves on the server; one in the cloud has its place and its keys.
abbrev pub Placed : HttpServerStore → Type 0
Placed c =
    ((c.store_type ≡ pos 0) × (c.file_limit.image_limit.store_in_server ≡ true))
    ⊎ (((c.store_type ≡ pos 1) ⊎ (c.store_type ≡ pos 2))
        × ((bytes_eq c.region [] ≡ false)
            × (bytes_eq c.bucket [] ≡ false)
            × (bytes_eq c.access_id [] ≡ false)
            × (bytes_eq c.access_key [] ≡ false)))

-- The limit on a file is no negative number, and its path begins with the path of the store, which
-- is not empty.
abbrev pub Usable : HttpServerStore → Type 0
Usable c =
    (pos 0 ≤ℤ c.file_limit.image_limit.max_file_size)
    × (bytes_eq c.local_store_path [] ≡ false)
    × (c.file_limit.image_limit.root_path ≡ c.local_store_path)
    × Placed c

module _ {E : Type 0} where
  check_cloud-Passes :
      (c : HttpServerStore) (e : E)
      → Passes
          (λ _.
            (bytes_eq c.region [] ≡ false)
            × (bytes_eq c.bucket [] ≡ false)
            × (bytes_eq c.access_id [] ≡ false)
            × (bytes_eq c.access_key [] ≡ false))
          (check_cloud c e)
  unfolding check_cloud check_local_store require fail_if stop pure ◌>>=◌
  check_cloud-Passes c e = ground arith

  local_store :
      (c : HttpServerStore) (e : E)
      → eq_ℤ c.store_type (pos 0) ≡ true
      → Passes (λ _. Placed c) (check_local_store c.file_limit true e)
  unfolding check_local_store fail_if stop pure
  local_store c e h = ground (arith, h, eq_ℤ_iff c.store_type (pos 0))

  pub check_store_type-Placed :
      (c : HttpServerStore) (e : E) → Passes (λ _. Placed c) (check_store_type c e)
  unfolding check_store_type
  check_store_type-Placed c e = elim (Bool-cases (eq_ℤ c.store_type (pos 0))) [
    | inl zero_type ↦ rw zero_type (local_store c e zero_type)
    | inr other ↦
        rw other (elim (Bool-cases (eq_ℤ c.store_type (pos 1) || eq_ℤ c.store_type (pos 2))) [
          | inl cloud ↦ rw cloud (
              Passes-weaken _ (λ _. Placed c) (check_cloud c e) (λ _ h. inr (cloud_type cloud, h))
                (check_cloud-Passes c e))
          | inr unknown ↦ rw unknown (Passes-stop _ _ e)
        ])
  ]
    where
      cloud_type :
          (eq_ℤ c.store_type (pos 1) || eq_ℤ c.store_type (pos 2)) ≡ true
          → (c.store_type ≡ pos 1) ⊎ (c.store_type ≡ pos 2)
      cloud_type h = ground (arith, h, eq_ℤ_iff c.store_type (pos 1), eq_ℤ_iff c.store_type (pos 2))

  check_file_limits-Passes :
      (c : HttpServerStoreFileLimits) (e : E)
      → Passes (λ _. pos 0 ≤ℤ c.image_limit.max_file_size) (check_file_limits c e)
  unfolding check_file_limits fail_if stop pure
  check_file_limits-Passes c e = ground arith

module _ {E T A : Type 0} (out : Outside E T A) where
  create_dir-Passes :
      (limits : HttpServerStoreFileLimits) (root : Bytes) (e : E)
      → Passes
          (λ c. c ≡ record { image_limit = record limits.image_limit { root_path = root } })
          (create_dir out limits root e)
  unfolding create_dir
  create_dir-Passes limits root e =
      Passes-bind (λ _. Unit) _ _ _ e (Passes-any _)
        (λ err e _. Passes-fail_some _ err _ _ e (Passes-pure _ _ e refl))

  -- A store that passes its check is usable.
  pub check_valid-Usable : (c : HttpServerStore) (e : E) → Passes Usable (check_valid out c e)
  unfolding check_valid
  check_valid-Usable c e =
      Passes-bind _ Usable _ _ e (check_file_limits-Passes c.file_limit e) (λ _ e low.
        Passes-fail_if Usable _ _ _ e (λ path. Passes-perform Usable _ _ e (λ err e.
          Passes-fail_some Usable err _ _ e (
            Passes-bind _ Usable _ _ e (create_dir-Passes c.file_limit c.local_store_path e)
              (λ limits e made.
                Passes-bind _ Usable _ _ e
                  (check_store_type-Placed (record c { file_limit = limits }) e)
                  (λ _ e placed.
                    Passes-pure Usable (record c { file_limit = limits }) e
                      (rw made (
                        low,
                        path,
                        refl,
                        subst (λ l. Placed (record c { file_limit = l })) made placed,
                      ))))))))
