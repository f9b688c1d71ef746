-- ===== src/Gateway/Clients.antt =====
-- `role` of shared/serving/gateway.py: who presents a token. Tokens and keys are texts of ASCII characters.
use lario_llms.Prelude.{
  String, ◌≡◌, refl, sym, ap, ◌∙◌, subst, ◌⊎◌, inl, inr, Bool, true, false, not, ◌&&◌, ◌||◌, Option,
  none, some, List, [], ◌∷◌, if◌then◌else◌, ltb, any, length, Text, eq_text, Fault, Result, ok, err,
  http, ◌>>=◌, ◌>>◌, require, require->>-eq-ok, Bool-cases,
}
use lario_llms.Roles.{Role, interactive, fleet, auxiliary, management, can_infer}
use lario_llms.Names.{is_empty}

-- An entry of the registry: whether its name fits the pattern, its role, if it is one of the four, and its key.
pub record Client : Type 0 where
  pub name : String
  pub is_named : Bool
  pub role : Option Role
  pub key : Text

pub record Identity : Type 0 where
  pub client : String
  pub role : Role
  pub is_registered : Bool

-- the server's own keys by their roles
abbrev pub ServerKeys : Type 0
ServerKeys = List (Role × Text)

abbrev pub unavailable : Fault
unavailable = http 503 "client_registry_unavailable"

abbrev pub is_valid : ServerKeys → Text → Client → Role → Bool
is_valid keys backend_key e role =
    e.is_named
    && can_infer role
    && not (ltb (length e.key) 24)
    && not (any (λ k. eq_text e.key k.1) keys || eq_text e.key backend_key)

-- `token and hmac.compare_digest(token, key)`
abbrev pub presents : Text → Text → Bool
presents token key = not (is_empty token) && eq_text token key

-- one entry: an invalid one makes the registry unavailable
abbrev pub client_found :
    ServerKeys
    → Text
    → Text
    → Client
    → Option Role
    → Result (Option Identity)
    → Result (Option Identity)
client_found keys backend_key token e none rest = err unavailable
client_found keys backend_key token e (some role) rest =
    require (is_valid keys backend_key e role) unavailable
    >> (if presents token e.key
        then ok (some (record { client = e.name; role = role; is_registered = true }))
        else rest)

-- the first client with the token
unfoldable pub registered : ServerKeys → Text → Text → List Client → Result (Option Identity)
unfolding eq_text
registered keys backend_key token [] = ok none
registered keys backend_key token (e ∷ clients) =
    let rest = registered keys backend_key token clients in
    client_found keys backend_key token e e.role rest

abbrev pub legacy_name : Role → String
legacy_name interactive = "legacy-interactive"
legacy_name fleet = "legacy-fleet"
legacy_name auxiliary = "legacy-auxiliary"
legacy_name management = "legacy-management"

unfoldable pub legacy : Text → ServerKeys → Result Identity
unfolding eq_text
legacy token [] = err (http 401 "credential_required")
legacy token ((role, key) ∷ keys) =
    let rest = legacy token keys in
    if presents token key
    then ok (record { client = legacy_name role; role = role; is_registered = false })
    else rest

abbrev pub or_legacy : Text → ServerKeys → Option Identity → Result Identity
or_legacy token keys none = legacy token keys
or_legacy token keys (some identity) = ok identity

-- `file` is none where there is no registry, and an error where it cannot be read
unfoldable pub role_in : ServerKeys → Text → Text → Option (Result (List Client)) → Result Identity
unfolding registered legacy
role_in keys backend_key token none = legacy token keys
role_in keys backend_key token (some (err _)) = err unavailable
role_in keys backend_key token (some (ok clients)) =
    registered keys backend_key token clients >>= λ found. or_legacy token keys found

-- the client of the registry that a token belongs to
abbrev pub Registered : ServerKeys → Text → Text → Identity → List Client → Type 0
Registered keys backend_key token i [] = ⊥
Registered keys backend_key token i (e ∷ clients) =
    ((e.role ≡ some i.role)
      × (e.name ≡ i.client)
      × (is_valid keys backend_key e i.role ≡ true)
      × (presents token e.key ≡ true))
    ⊎ Registered keys backend_key token i clients

-- the server's key of this role that a token is
abbrev pub Keyed : Text → Role → ServerKeys → Type 0
Keyed token role [] = ⊥
Keyed token role ((r, key) ∷ keys) =
    ((r ≡ role) × (presents token key ≡ true)) ⊎ Keyed token role keys

legacy-Keyed :
    (token : Text) (keys : ServerKeys) {i : Identity}
    → legacy token keys ≡ ok i
    → (i.is_registered ≡ false) × Keyed token i.role keys
unfolding legacy
legacy-Keyed token [] h = cc
legacy-Keyed token ((role, key) ∷ keys) {i = i} h = elim (Bool-cases (presents token key)) [
  | inl e ↦
      let k : ok (record { client = legacy_name role; role = role; is_registered = false }) ≡ ok i =
        rw e at h in
      let same : record { client = legacy_name role; role = role; is_registered = false } ≡ i =
        cc in
      (sym (ap (λ x. x.is_registered) same), inl (ap (λ x. x.role) same, e))
  | inr e ↦ let (r, k) = legacy-Keyed token keys (rw e at h) in (r, inr k)
]

registered-Registered :
    (keys : ServerKeys) (backend_key token : Text) (clients : List Client) {i : Identity}
    → registered keys backend_key token clients ≡ ok (some i)
    → (i.is_registered ≡ true) × Registered keys backend_key token i clients
unfolding registered
registered-Registered keys backend_key token [] h = cc
registered-Registered keys backend_key token (e ∷ clients) {i = i} h =
    of_role e.role refl (λ g. registered-Registered keys backend_key token clients g) h
  where
    of_role :
        (o : Option Role)
        → e.role ≡ o
        → (registered keys backend_key token clients ≡ ok (some i)
            → (i.is_registered ≡ true) × Registered keys backend_key token i clients)
        → client_found keys backend_key token e o (registered keys backend_key token clients)
          ≡ ok (some i)
        → (i.is_registered ≡ true) × Registered keys backend_key token i (e ∷ clients)
    of_role none known more k = cc
    of_role (some role) known more k =
        let (valid, k') =
          require->>-eq-ok (is_valid keys backend_key e role) unavailable
            (if presents token e.key
              then ok (some (record { client = e.name; role = role; is_registered = true }))
              else registered keys backend_key token clients)
            k in
        elim (Bool-cases (presents token e.key)) [
          | inl here ↦
              let g : ok (some (record { client = e.name; role = role; is_registered = true }))
                  ≡ ok (some i) =
                rw here at k' in
              let same : record { client = e.name; role = role; is_registered = true } ≡ i = cc in
              let this : role ≡ i.role = ap (λ x. x.role) same in
              (
                sym (ap (λ x. x.is_registered) same),
                inl (
                  known ∙ ap some this,
                  ap (λ x. x.client) same,
                  subst (λ (r : Role). is_valid keys backend_key e r ≡ true) this valid,
                  here,
                ),
              )
          | inr other ↦ let (r, found) = more (rw other at k') in (r, inr found)
        ]

-- A caller that is let in presented a token: that of a client of the registry, whose entry is valid, that is, it has a
-- role that may infer and a key of at least 24 characters which is none of the server's own; or, as no
-- registered client, the server's key of its role.
pub role_in-Identified :
    (keys : ServerKeys) (backend_key token : Text) (file : Option (Result (List Client)))
    {i : Identity}
    → role_in keys backend_key token file ≡ ok i
    → ((i.is_registered ≡ false) × Keyed token i.role keys)
      ⊎ ((clients : List Client) × (file ≡ some (ok clients))
          × (i.is_registered ≡ true)
          × Registered keys backend_key token i clients)
unfolding role_in
role_in-Identified keys backend_key token none h = inl (legacy-Keyed token keys h)
role_in-Identified keys backend_key token (some (err _)) h = cc
role_in-Identified keys backend_key token (some (ok clients)) {i = i} h =
    of_found (registered keys backend_key token clients) refl h
  where
    of_found :
        (r : Result (Option Identity))
        → registered keys backend_key token clients ≡ r
        → (r >>= λ found. or_legacy token keys found) ≡ ok i
        → ((i.is_registered ≡ false) × Keyed token i.role keys)
          ⊎ ((cs : List Client) × (some (ok clients) ≡ some (ok cs))
              × (i.is_registered ≡ true)
              × Registered keys backend_key token i cs)
    of_found (err fault) e k = cc
    of_found (ok none) e k = inl (legacy-Keyed token keys k)
    of_found (ok (some j)) e k =
        let same : j ≡ i = cc in
        let r =
          registered-Registered keys backend_key token clients (e ∙ ap (λ x. ok (some x)) same) in
        inr (clients, refl, r.0, r.1)
