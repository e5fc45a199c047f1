-- ===== src/Auth/Confinement.antt =====
-- What the interceptor of apikey.go lets a principal do, by policy.go: the proofs.
use scriva.Prelude.{
  is_some, String, ◌≡◌, refl, sym, ap, subst, ◌∙◌, Bool, true, false, not, ◌&&◌, ◌||◌, ◌⊎◌, Option,
  none, some, List, [], ◌∷◌, lookup, All, All-map, string_eq, Bool-cases, inl, inr, if_true,
  if_false, Option-cases, arith,
}
use scriva.Auth.{
  NameSet, Access, access_denied, access_collection_read, access_collection_write, access_create,
  access_db_admin, access_db_read, access_filtered, access_handle_write, access_authenticated,
  Principal, Denial, restricted, can_write, or_denied, policy_for, authorize_access,
  authorize_method, authorize_request, Request, request_collections, check_names, check_named,
  check_class, is_collection_class, allowed_in, allows_collection,
}
use scriva.Auth.Resolution.{lookup_key-configured, configured-unrestrained}
use scriva.Auth.Keys.{
  no_restriction, certificate_principal, ApiKey, built, build_key_set, lookup_key, Authenticator,
  Credentials, Authorized, granted, refused, granted_unless, authorize, by_key, by_credentials,
  by_certificate, enabled, then_request, unary,
}

-- the capabilities of the whole database
abbrev pub is_db_class : Access → Bool
is_db_class access_denied = true
is_db_class access_db_read = true
is_db_class access_db_admin = true
is_db_class _ = false

-- What a principal with an allow-list may call: a listed method outside the database classes, and,
-- when it is of a collection class, a request that names collections of the list and only such.
abbrev pub IsConfined : NameSet → Option Access → Option (List String) → Type 0
IsConfined allowed none names = ⊥
IsConfined allowed (some access) names =
    (is_db_class access ≡ false)
    × (is_collection_class access ≡ true
        → (n : String) × (ns : List String) × (names ≡ some (n ∷ ns))
          × All (λ c. is_some (lookup c allowed) ≡ true) (n ∷ ns))

check_names-All :
    (p : Principal) (names : List String)
    → check_names p names ≡ none
    → All (λ c. allows_collection p c ≡ true) names
unfolding check_names
check_names-All p [] h = tt
check_names-All p (c ∷ cs) h = elim (Bool-cases (allows_collection p c)) [
  | inl held ↦ (held, check_names-All p cs (sym (if_true _ _ _ held) ∙ h))
  | inr fails ↦
      let bad : some (Denial.outside_list c) ≡ none = sym (if_false _ _ _ fails) ∙ h in cc bad
]

named-Listed :
    (p : Principal) (allowed : NameSet) (names : Option (List String))
    → p.collections ≡ some allowed
    → check_named p names ≡ none
    → (n : String) × (ns : List String) × (names ≡ some (n ∷ ns))
      × All (λ c. is_some (lookup c allowed) ≡ true) (n ∷ ns)
unfolding check_named lookup allowed_in
named-Listed p allowed none l h = let bad : ⊥ = cc h in elim bad [ ]
named-Listed p allowed (some []) l h = let bad : ⊥ = cc h in elim bad [ ]
named-Listed p allowed (some (n ∷ ns)) l h = (
  n,
  ns,
  refl,
  All-map (n ∷ ns)
      (λ c (ok : allows_collection p c ≡ true).
        subst (λ (o : Option NameSet). allowed_in c o ≡ true) l ok)
      (check_names-All p (n ∷ ns) h),
)

class-Confined :
    (p : Principal) (allowed : NameSet) (req : Request) (o : Option Access)
    → p.collections ≡ some allowed
    → p.unrestrained ≡ false
    → authorize_access p (or_denied o) ≡ none
    → check_class p req o ≡ none
    → IsConfined allowed o (request_collections req)
unfolding check_named check_class
class-Confined p allowed req none l u a h = ground arith
class-Confined p allowed req (some access_denied) l u a h = ground arith
class-Confined p allowed req (some access_db_admin) l u a h = ground arith
class-Confined p allowed req (some access_db_read) l u a h = ground arith
class-Confined p allowed req (some access_collection_read) l u a h =
    (refl, λ _. named-Listed p allowed _ l h)
class-Confined p allowed req (some access_collection_write) l u a h =
    (refl, λ _. named-Listed p allowed _ l h)
class-Confined p allowed req (some access_create) l u a h =
    (refl, λ _. named-Listed p allowed _ l h)
class-Confined p allowed req (some access_filtered) l u a h = (refl, λ c. cc c)
class-Confined p allowed req (some access_handle_write) l u a h = (refl, λ c. cc c)
class-Confined p allowed req (some access_authenticated) l u a h = (refl, λ c. cc c)

granted_unless-granted :
    (q p : Principal) (d : Option Denial) → granted_unless q d ≡ granted p → (q ≡ p) × (d ≡ none)
granted_unless-granted q p none h = (cc h, refl)
granted_unless-granted q p (some d) h = let bad : ⊥ = cc h in elim bad [ ]

then_request-granted :
    (m : String) (req : Request) (r : Authorized) (p : Principal)
    → then_request m req r ≡ granted p
    → (r ≡ granted p) × (authorize_request p m req ≡ none)
then_request-granted m req (refused why) p h = let bad : ⊥ = cc h in elim bad [ ]
then_request-granted m req (granted q) p h =
    let parts = granted_unless-granted q p _ h in
    (
      ap granted parts.0,
      subst (λ (o : Principal). authorize_request o m req ≡ none) parts.0 parts.1,
    )

-- what a granted request says of its principal: authentication is off, or the principal passed the
-- check of the method
abbrev IsGranted : Authenticator → String → Principal → Type 0
IsGranted a m p =
    ((enabled a.entries ≡ false) × (a.cert_auth ≡ false) × (p ≡ no_restriction))
    ⊎ ((p.unrestrained ≡ false) × (authorize_method p m ≡ none))

by_certificate-granted :
    (a : Authenticator) (on : Bool) (cert : Option (String × String)) (m : String) (p : Principal)
    → by_certificate on cert m ≡ granted p
    → IsGranted a m p
by_certificate-granted a false cert m p h = let bad : ⊥ = cc h in elim bad [ ]
by_certificate-granted a true none m p h = let bad : ⊥ = cc h in elim bad [ ]
by_certificate-granted a true (some cert) m p h =
    let parts = granted_unless-granted (certificate_principal cert) p _ h in
    inr (
      ap (λ (q : Principal). q.unrestrained) (sym parts.0),
      subst (λ (o : Principal). authorize_method o m ≡ none) parts.0 parts.1,
    )

by_key-granted :
    (a : Authenticator) (found : Option Principal) (m : String) (p : Principal)
    → ((q : Principal) → found ≡ some q → q.unrestrained ≡ false)
    → by_key found m ≡ granted p
    → IsGranted a m p
by_key-granted a none m p ok h = let bad : ⊥ = cc h in elim bad [ ]
by_key-granted a (some q) m p ok h =
    let parts = granted_unless-granted q p _ h in
    inr (
      ok p (ap some parts.0),
      subst (λ (o : Principal). authorize_method o m ≡ none) parts.0 parts.1,
    )

by_credentials-granted :
    (a : Authenticator) (key : Option String) (creds : Credentials) (m : String) (p : Principal)
    → ((x : String) (q : Principal) → lookup_key x a.entries ≡ some q → q.unrestrained ≡ false)
    → by_credentials a key creds m ≡ granted p
    → IsGranted a m p
unfolding by_credentials
by_credentials-granted a none creds m p ok h = by_certificate-granted a _ _ m p h
by_credentials-granted a (some x) creds m p ok h = elim (Bool-cases (enabled a.entries)) [
  | inl on ↦
      by_key-granted a (lookup_key x a.entries) m p (ok x)
        (sym (if_true (enabled a.entries) _ _ on) ∙ h)
  | inr off ↦ by_certificate-granted a _ _ m p (sym (if_false (enabled a.entries) _ _ off) ∙ h)
]

authorize-granted :
    (key_id : String → String) (ks : List ApiKey) (a : Authenticator) (creds : Credentials)
    (m : String) (p : Principal)
    → build_key_set key_id ks ≡ built a.entries
    → authorize a creds m ≡ granted p
    → IsGranted a m p
unfolding authorize
authorize-granted key_id ks a creds m p made h =
    elim (Bool-cases (not (enabled a.entries) && not a.cert_auth)) [
      | inl off ↦
          let who : granted no_restriction ≡ granted p =
            sym (if_true (not (enabled a.entries) && not a.cert_auth) _ _ off) ∙ h in
          inl (ground arith, ground arith, cc who)
      | inr on ↦
          by_credentials-granted a creds.api_key creds m p
            (λ x q found.
              configured-unrestrained key_id x ks q
                (sym (lookup_key-configured key_id x ks a.entries made) ∙ found))
            (sym (if_false (not (enabled a.entries) && not a.cert_auth) _ _ on) ∙ h)
    ]

unlisted-IsAdmin :
    (p : Principal)
    → p.unrestrained ≡ false
    → authorize_access p access_denied ≡ none
    → (can_write p ≡ true) × (p.collections ≡ none)
unlisted-IsAdmin p u h = elim (Option-cases p.collections) [
  | inl free ↦ (ground arith, free)
  | inr (allowed, listed) ↦ ground arith
]

-- A method that the policy does not list is open only when authentication is off, or to a read-write
-- principal without an allow-list.
unary-unlisted :
    (key_id : String → String) (ks : List ApiKey) (a : Authenticator) (creds : Credentials)
    (m : String) (req : Request) (p : Principal)
    → build_key_set key_id ks ≡ built a.entries
    → policy_for m ≡ none
    → unary a creds m req ≡ granted p
    → ((enabled a.entries ≡ false) × (a.cert_auth ≡ false))
      ⊎ ((can_write p ≡ true) × (p.collections ≡ none))
unfolding unary authorize_method
unary-unlisted key_id ks a creds m req p made unlisted h =
    elim (authorize-granted key_id ks a creds m p made (then_request-granted m req _ p h).0) [
      | inl (off, plain, who) ↦ inl (off, plain)
      | inr (u, passed) ↦ inr (
          unlisted-IsAdmin p u
            (subst (λ o. authorize_access p (or_denied o) ≡ none) unlisted passed))
    ]

-- A principal with an allow-list that the interceptor lets through calls a listed method outside the
-- database classes and, when the method is of a collection class, names at least one collection and
-- only collections of its list. The key set is one that was built.
pub unary-IsConfined :
    (key_id : String → String) (ks : List ApiKey) (a : Authenticator) (creds : Credentials)
    (m : String) (req : Request) (p : Principal) (allowed : NameSet)
    → build_key_set key_id ks ≡ built a.entries
    → p.collections ≡ some allowed
    → unary a creds m req ≡ granted p
    → IsConfined allowed (policy_for m) (request_collections req)
unfolding unary authorize_method authorize_request
unary-IsConfined key_id ks a creds m req p allowed made listed h =
    let parts = then_request-granted m req _ p h in
    elim (authorize-granted key_id ks a creds m p made parts.0) [
      | inl (off, plain, who) ↦
          let bad : none ≡ some allowed =
            ap (λ (q : Principal). q.collections) (sym who) ∙ listed in
          let absurd : ⊥ = cc bad in elim absurd [ ]
      | inr (u, passed) ↦ class-Confined p allowed req (policy_for m) listed u passed (
          sym (if_false (not (restricted p) || p.unrestrained) _ _ (rw (listed, u) refl)) ∙ parts.1)
    ]
