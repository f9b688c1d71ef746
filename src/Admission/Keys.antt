-- ===== src/Admission/Keys.antt =====
-- shared/admission/server.py: the four class credentials (create_app) and the class of a request (role).
use Prim.Native.String.{count as char_count}
use lario_llms.Prelude.{
  String, ◌≡◌, ◌↔◌, Bool, true, false, not, ◌&&◌, ◌||◌, List, [], ◌∷◌, arith, str_eq, eq_iff,
  eq_refl, leb, ap, sym, ◌∙◌, inl, inr, Bool-cases, if◌then◌else◌, member, Result, ok, err, http,
}
use lario_llms.Roles.{Role, interactive, fleet, auxiliary, management}

pub record Keys : Type 0 where
  pub interactive : String
  pub fleet : String
  pub auxiliary : String
  pub management : String

abbrev pub key_of : Keys → Role → String
key_of k interactive = k.interactive
key_of k fleet = k.fleet
key_of k auxiliary = k.auxiliary
key_of k management = k.management

abbrev long : String → Bool
long k = leb 24 (char_count k)

abbrev distinct : List String → Bool
distinct [] = true
distinct (k ∷ ks) = not (member k ks) && distinct ks

-- the two `raise ValueError` of create_app (the role names are the record's fields)
unfoldable pub are_keys : Keys → String → Bool
are_keys k backend =
    (long k.interactive && long k.fleet && long k.auxiliary && long k.management && long backend)
    && distinct (k.interactive ∷ k.fleet ∷ k.auxiliary ∷ k.management ∷ [])
    && not (
        str_eq k.interactive backend
        || str_eq k.fleet backend
        || str_eq k.auxiliary backend
        || str_eq k.management backend)

-- `token` is the Authorization header without `Bearer `, the empty text where there is none
unfoldable pub role_of : Keys → String → Result Role
role_of k token =
    if str_eq token ""
    then err (http 401 "credential_required")
    else if str_eq token k.interactive
    then ok interactive
    else if str_eq token k.fleet
    then ok fleet
    else if str_eq token k.auxiliary
    then ok auxiliary
    else if str_eq token k.management
    then ok management
    else err (http 401 "unknown_credential")

role_of-eq-ok :
    (k : Keys) (token : String) (role : Role) → role_of k token ≡ ok role → token ≡ key_of k role
unfolding role_of
role_of-eq-ok k token interactive h = ground (arith, eq_iff token k.interactive)
role_of-eq-ok k token fleet h = ground (arith, eq_iff token k.fleet)
role_of-eq-ok k token auxiliary h = ground (arith, eq_iff token k.auxiliary)
role_of-eq-ok k token management h = ground (arith, eq_iff token k.management)

long-nonempty : (k : String) → long k ≡ true → str_eq k "" ≡ false
long-nonempty k h = elim (Bool-cases (str_eq k "")) [
  | inl e ↦ cc (sym h, ap long ((eq_iff k "").0 e))
  | inr e ↦ e
]

str_eq_comm : (a b : String) → str_eq a b ≡ str_eq b a
str_eq_comm a b = ground (arith, eq_iff a b, eq_iff b a)

and-true : (a b : Bool) → (a && b) ≡ true → (a ≡ true) × (b ≡ true)
and-true a b h = ground arith

and_true_five :
    (a b c d e : Bool)
    → (a && b && c && d && e) ≡ true
    → (a ≡ true) × (b ≡ true) × (c ≡ true) × (d ≡ true) × (e ≡ true)
and_true_five a b c d e h = ground arith

not-or_four :
    (a b c d : Bool)
    → not (a || b || c || d) ≡ true
    → (a ≡ false) × (b ≡ false) × (c ≡ false) × (d ≡ false)
not-or_four a b c d h = ground arith

distinct-true :
    (i f a m : String)
    → distinct (i ∷ f ∷ a ∷ m ∷ []) ≡ true
    → (str_eq i f ≡ false)
      × (str_eq i a ≡ false)
      × (str_eq i m ≡ false)
      × (str_eq f a ≡ false)
      × (str_eq f m ≡ false)
      × (str_eq a m ≡ false)
distinct-true i f a m h = ground arith

-- the tests of `are_keys`, in the order in which `role_of` compares
record Separate (k : Keys) (backend : String) : Type 0 where
  long_keys :
      (str_eq k.interactive "" ≡ false)
      × (str_eq k.fleet "" ≡ false)
      × (str_eq k.auxiliary "" ≡ false)
      × (str_eq k.management "" ≡ false)
      × (str_eq backend "" ≡ false)
  fleet_differs : str_eq k.fleet k.interactive ≡ false
  auxiliary_differs :
      (str_eq k.auxiliary k.interactive ≡ false) × (str_eq k.auxiliary k.fleet ≡ false)
  management_differs :
      (str_eq k.management k.interactive ≡ false)
      × (str_eq k.management k.fleet ≡ false)
      × (str_eq k.management k.auxiliary ≡ false)
  backend_differs :
      (str_eq backend k.interactive ≡ false)
      × (str_eq backend k.fleet ≡ false)
      × (str_eq backend k.auxiliary ≡ false)
      × (str_eq backend k.management ≡ false)

are_keys-Separate : (k : Keys) (backend : String) → are_keys k backend ≡ true → Separate k backend
unfolding are_keys
are_keys-Separate k backend h =
    let (sized_distinct, foreign) = and-true _ (not _) h in
    let (sized, apart) =
      and-true _ (distinct (k.interactive ∷ k.fleet ∷ k.auxiliary ∷ k.management ∷ []))
        sized_distinct in
    let (li, lf, la, lm, lb) = and_true_five _ _ _ _ _ sized in
    let d = distinct-true k.interactive k.fleet k.auxiliary k.management apart in
    let (bi, bf, ba, bm) = not-or_four _ _ _ _ foreign in
    record {
      long_keys = (
        long-nonempty k.interactive li,
        long-nonempty k.fleet lf,
        long-nonempty k.auxiliary la,
        long-nonempty k.management lm,
        long-nonempty backend lb,
      );
      fleet_differs = str_eq_comm k.fleet k.interactive ∙ d.0;
      auxiliary_differs =
          (str_eq_comm k.auxiliary k.interactive ∙ d.1, str_eq_comm k.auxiliary k.fleet ∙ d.3);
      management_differs = (
        str_eq_comm k.management k.interactive ∙ d.2,
        str_eq_comm k.management k.fleet ∙ d.4,
        str_eq_comm k.management k.auxiliary ∙ d.5,
      );
      backend_differs = (
        str_eq_comm backend k.interactive ∙ bi,
        str_eq_comm backend k.fleet ∙ bf,
        str_eq_comm backend k.auxiliary ∙ ba,
        str_eq_comm backend k.management ∙ bm,
      );
    }

role_of-Separate :
    (k : Keys) (backend : String) (role : Role)
    → Separate k backend
    → role_of k (key_of k role) ≡ ok role
unfolding role_of
role_of-Separate k backend interactive s = simp (s.long_keys.0, eq_refl)
role_of-Separate k backend fleet s = simp (s.long_keys.1, s.fleet_differs, eq_refl)
role_of-Separate k backend auxiliary s =
    simp (s.long_keys.2, s.auxiliary_differs.0, s.auxiliary_differs.1, eq_refl)
role_of-Separate k backend management s =
    simp (
      s.long_keys.3, s.management_differs.0, s.management_differs.1, s.management_differs.2,
      eq_refl,
    )

-- The keys that the server starts with tell the classes apart: a request is of a class exactly if it
-- brings that class's key, and the backend's own key is of none.
pub role_of-are_keys :
    (k : Keys) (backend token : String) (role : Role)
    → are_keys k backend ≡ true
    → ((role_of k token ≡ ok role) ↔ (token ≡ key_of k role))
      × (role_of k backend ≡ err (http 401 "unknown_credential"))
unfolding role_of
role_of-are_keys k backend token role h =
    let s = are_keys-Separate k backend h in
    (
      (role_of-eq-ok k token role, λ e. rw e (role_of-Separate k backend role s)),
      simp (
        s.long_keys.4, s.backend_differs.0, s.backend_differs.1, s.backend_differs.2,
        s.backend_differs.3,
      ),
    )
