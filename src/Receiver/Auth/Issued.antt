-- ===== src/Receiver/Auth/Issued.antt =====
-- The keys that `validate_token` accepts, and those that were issued.
use mathlib.Core.Path.{subst}
use halley.Common.{
  String, ◌≡◌, true, false, Option, none, some, [], ◌∷◌, and_then, str_eq, All, eq_iff, arith,
  Bool-cases, inl, inr,
}
use halley.Common.BTreeMap.{get, insert}
use halley.External.{External, Uuid}
use halley.Receiver.Auth.{
  Cache, Validated, project, no_project, failed, Services, redis_key, cached, store, looked_up,
  query, validate_token,
}

-- `Issued key u` says that the key of Redis belongs to an API key that was issued for project `u`.
module _ (ext : External) (Issued : String → Uuid → Type 0) where
  abbrev pub Held : String → Option Uuid → Type 0
  Held key none = Unit
  Held key (some u) = Issued key u

  -- Every project in the cache was issued.
  abbrev pub IsHonest : Cache → Type 0
  IsHonest = All (λ e. Held e.0 (ext.uuid_parse e.1))

  -- The answer is no error, and a project that it gives was issued.
  abbrev pub IsRight : String → Validated → Type 0
  IsRight key (project u) = Issued key u
  IsRight key no_project = Unit
  IsRight key (failed e) = false ≡ true

  get-Held :
      (cache : Cache) (key : String)
      → IsHonest cache
      → Held key (and_then (get cache key) ext.uuid_parse)
  unfolding get
  get-Held [] key h = tt
  get-Held ((k, text) ∷ cache) key (held, h) = elim (Bool-cases (str_eq k key)) [
    | inl same ↦ rw same (subst (λ i. Held i (ext.uuid_parse text)) ((eq_iff k key).0 same) held)
    | inr other ↦ rw other (get-Held cache key h)
  ]

  insert-IsHonest :
      (key text : String) (cache : Cache)
      → Held key (ext.uuid_parse text)
      → IsHonest cache
      → IsHonest (insert key text cache)
  unfolding insert
  insert-IsHonest key text [] held h = (held, h)
  insert-IsHonest key text ((k, v) ∷ cache) held (old, h) =
      ground (arith, insert-IsHonest key text cache held h)

  stored_lem :
      (services : Services) (cache : Cache) (key : String) (u : Uuid)
      → ext.uuid_parse (ext.uuid_to_string u) ≡ some u
      → IsHonest cache
      → Issued key u
      → IsHonest (store ext services cache key u)
  stored_lem services cache key u back honest issued = elim (Bool-cases services.writes) [
    | inr off ↦ rw off honest
    | inl on ↦ rw on (insert-IsHonest key (ext.uuid_to_string u) cache (rw back issued) honest)
  ]

  cached-Held :
      (services : Services) (cache : Cache) (key : String)
      → IsHonest cache
      → Held key (cached ext services cache key)
  unfolding get
  cached-Held services cache key honest = elim (Bool-cases services.reads) [
    | inr off ↦ rw off tt
    | inl on ↦ rw on (get-Held cache key honest)
  ]

  looked_up-IsHonest :
      (services : Services) (cache : Cache) (key : String) (hit found : Option Uuid)
      → ((u : Uuid) → ext.uuid_parse (ext.uuid_to_string u) ≡ some u)
      → IsHonest cache
      → Held key hit
      → Held key found
      → IsRight key (looked_up ext services cache key hit found).0
        × IsHonest (looked_up ext services cache key hit found).1
  looked_up-IsHonest services cache key (some u) found back honest h k = (h, honest)
  looked_up-IsHonest services cache key none (some u) back honest h k =
      (k, stored_lem services cache key u (back u) honest k)
  looked_up-IsHonest services cache key none none back honest h k = (tt, honest)

  -- With UUIDs that are read back from their texts, and where the cache and the table hold only
  -- projects that were issued: the answer to a validation is never an error, a project that it gives
  -- was issued for the key, and the cache after it still holds only projects that were issued. So an
  -- outage of either service refuses a key and never accepts one that was not issued.
  pub validate_token-IsHonest :
      (services : Services) (cache : Cache) (token : String)
      → ((u : Uuid) → ext.uuid_parse (ext.uuid_to_string u) ≡ some u)
      → IsHonest cache
      → Held (redis_key ext token) (query ext services token)
      → IsRight (redis_key ext token) (validate_token ext services cache token).0
        × IsHonest (validate_token ext services cache token).1
  unfolding validate_token
  validate_token-IsHonest services cache token back honest table =
      elim (Bool-cases services.connected) [
        | inr down ↦ simp down (tt, honest)
        | inl up ↦ simp up (
            looked_up-IsHonest services cache (redis_key ext token)
              (cached ext services cache (redis_key ext token)) (query ext services token) back
              honest (cached-Held services cache (redis_key ext token) honest) table)
      ]
