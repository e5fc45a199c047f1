-- ===== src/Scenarios/Access.antt =====
-- A server with one key that may write the collection "a", and requests against it.
use scriva.Prelude.{
  ◌≡◌, refl, String, true, false, not, ◌&&◌, none, some, List, [], ◌∷◌, ◌==◌, string_eq,
}
use scriva.Auth.{
  NameSet, access_collection_write, scope_read, scope_read_write, Principal, can_write, policy_for,
  authorize_method, Request, accessors, request_collections,
}
use scriva.Auth.Keys.{
  ApiKey, KeyEntry, built, principal_of, build_key_set, lookup_key, Authenticator, Credentials,
  granted, enabled, unary, allow_list, name_set,
}
use scriva.Auth.Follower.{refuses}
use scriva.Auth.Agreement.{needs_write, promote, refuses-policy_for}
use scriva.Auth.Resolution.{configured, lookup_key-configured}
use scriva.Auth.Confinement.{IsConfined, unary-IsConfined}

abbrev insert_method : String
insert_method = "/scriva.v1.Scriva/Insert"

abbrev same_id : String → String
same_id key = key

abbrev writer_key : ApiKey
writer_key = record { key = "k"; name = "w"; scope = scope_read_write; collections = "a" ∷ [] }

abbrev admin_key : ApiKey
admin_key = record { key = "r"; name = "admin"; scope = scope_read_write; collections = [] }

abbrev only_a : NameSet
only_a = ("a", tt) ∷ []

abbrev writer : Principal
writer = record {
  name = "w";
  scope = scope_read_write;
  id = "k";
  unrestrained = false;
  collections = some only_a;
}

abbrev admin : Principal
admin = record {
  name = "admin";
  scope = scope_read_write;
  id = "r";
  unrestrained = false;
  collections = none;
}

abbrev keys : List ApiKey
keys = writer_key ∷ admin_key ∷ []

abbrev entries : List KeyEntry
entries = record { key = "k"; principal = writer } ∷ record { key = "r"; principal = admin } ∷ []

keys-built : build_key_set same_id keys ≡ built entries
unfolding build_key_set allow_list scriva.Auth.Keys.build_entries
keys-built = refl

abbrev server : Authenticator
server = record { entries = entries; cert_auth = false }

abbrev by_writer : Credentials
by_writer = record { api_key = some "k"; certificate = none }

abbrev by_admin : Credentials
by_admin = record { api_key = some "r"; certificate = none }

abbrev into_a : Request
into_a = accessors (some "a") none

insert-granted : unary server by_writer insert_method into_a ≡ granted writer
unfolding unary scriva.Auth.Keys.by_credentials authorize_method policy_for
    scriva.Auth.authorize_request scriva.Auth.check_class scriva.Auth.check_named
    scriva.Auth.allowed_in
insert-granted = refl

unary-IsConfined_example : IsConfined only_a (policy_for insert_method) (request_collections into_a)
unary-IsConfined_example =
    unary-IsConfined same_id keys server by_writer insert_method into_a writer only_a keys-built
      refl insert-granted

insert-listed : policy_for insert_method ≡ some access_collection_write
unfolding policy_for
insert-listed = refl

refuses-policy_for_example :
    refuses true insert_method
    ≡ (true && (needs_write access_collection_write && not (insert_method == promote)))
refuses-policy_for_example =
    refuses-policy_for insert_method access_collection_write true insert-listed

lookup_key-configured_example : lookup_key "r" entries ≡ configured same_id "r" keys
lookup_key-configured_example = lookup_key-configured same_id "r" keys entries keys-built
