-- ===== src/Auth/Keys.antt =====
-- internal/auth/apikey.go: the key set, the resolution of a request's principal, and the unary
-- interceptor. SHA-256 is a parameter; the audit sink and the context are not modelled.
use scriva.Prelude.{
  is_some, String, Bool, true, false, not, ◌&&◌, Option, none, some, List, [], ◌∷◌, Dict, lookup,
  insert, ◌==◌, string_eq, if◌then◌else◌,
}
use scriva.Auth.{
  Scope, scope_read, scope_read_write, NameSet, Principal, Denial, authorize_method,
  authorize_request, Request,
}

-- Key
pub record ApiKey : Type 0 where
  pub key : String
  pub name : String
  pub scope : Scope
  pub collections : List String

pub record KeyEntry : Type 0 where
  pub key : String
  pub principal : Principal

pub data KeyError : Type 0 where
  empty_key duplicate_key_value : String → KeyError

pub data Built : Type 0 where
  rejected : KeyError → Built
  built : List KeyEntry → Built

unfoldable pub name_set : List String → NameSet → NameSet
unfolding insert
name_set [] m = m
name_set (c ∷ cs) m = name_set cs (insert c tt m)

-- `if len(k.Collections) > 0`
unfoldable pub allow_list : List String → Option (NameSet)
unfolding name_set
allow_list [] = none
allow_list (c ∷ cs) = some (name_set (c ∷ cs) [])

abbrev pub with_entry : KeyEntry → Built → Built
with_entry e (rejected err) = rejected err
with_entry e (built es) = built (e ∷ es)

module _ (key_id : String → String) where
  abbrev pub principal_of : ApiKey → Principal
  principal_of k = record {
    name = if k.name == "" then "unnamed" else k.name;
    scope = k.scope;
    id = key_id k.key;
    unrestrained = false;
    collections = allow_list k.collections;
  }

  -- the loop, with the keys that it has seen
  unfoldable pub build_entries : Dict String String → List ApiKey → Built
  unfolding insert lookup
  build_entries seen [] = built []
  build_entries seen (k ∷ ks) =
      let rest = build_entries (insert k.key k.name seen) ks in
      if k.key == ""
      then rejected (empty_key k.name)
      else if is_some (lookup k.key seen)
      then rejected (duplicate_key_value k.name)
      else with_entry (record { key = k.key; principal = principal_of k }) rest

  unfoldable pub build_key_set : List ApiKey → Built
  build_key_set ks = build_entries [] ks

-- the constant-time loop: a later match replaces an earlier one
unfoldable pub find_key : String → List KeyEntry → Option Principal → Option Principal
find_key provided [] found = found
find_key provided (e ∷ es) found =
    find_key provided es (if e.key == provided then some e.principal else found)

-- keySet.lookup
unfoldable pub lookup_key : String → List KeyEntry → Option Principal
unfolding find_key
lookup_key provided es = find_key provided es none

-- What an Authenticator holds: the current entries, and whether certificates authenticate.
pub record Authenticator : Type 0 where
  pub entries : List KeyEntry
  pub cert_auth : Bool

-- Authenticator.Reload: the keys are left as they were when the new ones are invalid
abbrev pub adopt_keys : Authenticator → Built → Authenticator
adopt_keys a (rejected err) = a
adopt_keys a (built es) = record a { entries = es }

unfoldable pub reload : (String → String) → List ApiKey → Authenticator → Authenticator
reload key_id ks a = adopt_keys a (build_key_set key_id ks)

-- keySet.enabled
abbrev pub enabled : List KeyEntry → Bool
enabled [] = false
enabled (e ∷ es) = true

-- The credentials of a request: the first x-api-key value, and the name and id of the verified client
-- certificate.
pub record Credentials : Type 0 where
  pub api_key : Option String
  pub certificate : Option (String × String)

pub data Refusal : Type 0 where
  invalid_api_key missing_credentials : Refusal
  permission_denied : Denial → Refusal

pub data Authorized : Type 0 where
  refused : Refusal → Authorized
  granted : Principal → Authorized

abbrev pub no_restriction : Principal
no_restriction = record {
  name = "";
  scope = scope_read;
  id = "";
  unrestrained = true;
  collections = none;
}

abbrev pub certificate_principal : String × String → Principal
certificate_principal (name, id) = record {
  name = name;
  scope = scope_read_write;
  id = id;
  unrestrained = false;
  collections = none;
}

abbrev pub granted_unless : Principal → Option Denial → Authorized
granted_unless p none = granted p
granted_unless p (some d) = refused (permission_denied d)

-- `if err := resolved.authorizeMethod(fullMethod)`
abbrev pub authorize_resolved : String → Principal → Authorized
authorize_resolved full_method p = granted_unless p (authorize_method p full_method)

abbrev pub by_certificate : Bool → Option (String × String) → String → Authorized
by_certificate false cert full_method = refused missing_credentials
by_certificate true none full_method = refused missing_credentials
by_certificate true (some cert) full_method =
    authorize_resolved full_method (certificate_principal cert)

abbrev pub by_key : Option Principal → String → Authorized
by_key none full_method = refused invalid_api_key
by_key (some p) full_method = authorize_resolved full_method p

-- the API key when keys are configured and one is presented, else the certificate
unfoldable pub by_credentials : Authenticator → Option String → Credentials → String → Authorized
unfolding lookup_key
by_credentials a none creds full_method = by_certificate a.cert_auth creds.certificate full_method
by_credentials a (some key) creds full_method =
    if enabled a.entries
    then by_key (lookup_key key a.entries) full_method
    else by_certificate a.cert_auth creds.certificate full_method

unfoldable pub authorize : Authenticator → Credentials → String → Authorized
authorize a creds full_method =
    if not (enabled a.entries) && not a.cert_auth
    then granted no_restriction
    else by_credentials a creds.api_key creds full_method

abbrev pub then_request : String → Request → Authorized → Authorized
then_request full_method req (refused r) = refused r
then_request full_method req (granted p) = granted_unless p (authorize_request p full_method req)

-- the unary interceptor: `granted` is where it calls the handler
unfoldable pub unary : Authenticator → Credentials → String → Request → Authorized
unfolding authorize
unary a creds full_method req = then_request full_method req (authorize a creds full_method)
