-- ===== src/Auth.antt =====
-- internal/auth/policy.go and scope.go: the capability that each RPC requires and the checks of a
-- principal against it. A request is what the checks read of it: the fields of a proto message, as
-- reflection shows them, or the two accessors. The proofs are in the modules below; ParseScope and
-- the texts of the errors are not modelled.
pub mod Keys
pub mod Follower
pub mod Agreement
pub mod Resolution
pub mod Confinement
use scriva.Prelude.{
  is_some, String, Bool, true, false, not, ◌&&◌, ◌||◌, Option, none, some, List, [], ◌∷◌, ◌++◌,
  Dict, lookup, ◌==◌, string_eq, if◌then◌else◌,
}

pub data Access : Type 0 where
  access_denied access_collection_read access_collection_write access_create : Access
  access_db_admin access_db_read access_filtered access_handle_write : Access
  access_authenticated : Access

-- `svc` and the method's name
abbrev pub method_policies : Dict String Access
method_policies =
    ("/scriva.v1.Scriva/CreateCollection", access_create)
    ∷ ("/scriva.v1.Scriva/DropCollection", access_db_admin)
    ∷ ("/scriva.v1.Scriva/ListCollections", access_filtered)
    ∷ ("/scriva.v1.Scriva/Insert", access_collection_write)
    ∷ ("/scriva.v1.Scriva/InsertMany", access_collection_write)
    ∷ ("/scriva.v1.Scriva/Update", access_collection_write)
    ∷ ("/scriva.v1.Scriva/Delete", access_collection_write)
    ∷ ("/scriva.v1.Scriva/Upsert", access_collection_write)
    ∷ ("/scriva.v1.Scriva/UpdateByKey", access_collection_write)
    ∷ ("/scriva.v1.Scriva/DeleteByKey", access_collection_write)
    ∷ ("/scriva.v1.Scriva/UpdateIfRev", access_collection_write)
    ∷ ("/scriva.v1.Scriva/FindById", access_collection_read)
    ∷ ("/scriva.v1.Scriva/Find", access_collection_read)
    ∷ ("/scriva.v1.Scriva/FindByKey", access_collection_read)
    ∷ ("/scriva.v1.Scriva/Aggregate", access_collection_read)
    ∷ ("/scriva.v1.Scriva/Watch", access_collection_read)
    ∷ ("/scriva.v1.Scriva/CollectionStats", access_collection_read)
    ∷ ("/scriva.v1.Scriva/ListIndexes", access_collection_read)
    ∷ ("/scriva.v1.Scriva/EnsureIndex", access_collection_write)
    ∷ ("/scriva.v1.Scriva/DropIndex", access_collection_write)
    ∷ ("/scriva.v1.Scriva/Compact", access_collection_write)
    ∷ ("/scriva.v1.Scriva/BeginTx", access_collection_write)
    ∷ ("/scriva.v1.Scriva/CommitTx", access_handle_write)
    ∷ ("/scriva.v1.Scriva/RollbackTx", access_handle_write)
    ∷ ("/scriva.v1.Scriva/BeginXTx", access_collection_write)
    ∷ ("/scriva.v1.Scriva/StageXTx", access_collection_write)
    ∷ ("/scriva.v1.Scriva/GetXTx", access_collection_write)
    ∷ ("/scriva.v1.Scriva/CommitXTx", access_handle_write)
    ∷ ("/scriva.v1.Scriva/RollbackXTx", access_handle_write)
    ∷ ("/scriva.v1.Scriva/XTxStatus", access_authenticated)
    ∷ ("/scriva.v1.Scriva/Snapshot", access_db_read)
    ∷ ("/scriva.v1.Scriva/Replicate", access_db_read)
    ∷ ("/scriva.v1.Scriva/ReplicationStatus", access_db_read)
    ∷ ("/scriva.v1.Scriva/Promote", access_db_admin)
    ∷ ("/grpc.health.v1.Health/Check", access_authenticated)
    ∷ ("/grpc.health.v1.Health/Watch", access_authenticated)
    ∷ ("/grpc.health.v1.Health/List", access_authenticated)
    ∷ []

-- PolicyFor
unfoldable pub policy_for : String → Option Access
unfolding lookup
policy_for full_method = lookup full_method method_policies

-- `if !known { access = AccessDenied }`
abbrev pub or_denied : Option Access → Access
or_denied none = access_denied
or_denied (some access) = access

pub data Scope : Type 0 where
  scope_read scope_read_write : Scope

abbrev pub is_read_write : Scope → Bool
is_read_write scope_read = false
is_read_write scope_read_write = true

-- map[string]struct{}
abbrev pub NameSet : Type 0
NameSet = Dict {0, 0} String Unit

-- `collections` is `none` for the nil map; `unrestrained` is the field `open`.
pub record Principal : Type 0 where
  pub name : String
  pub scope : Scope
  pub id : String
  pub unrestrained : Bool
  pub collections : Option NameSet

abbrev pub restricted : Principal → Bool
restricted p = is_some p.collections

abbrev pub db_capable : Principal → Bool
db_capable p = p.unrestrained || not (restricted p)

abbrev pub can_write : Principal → Bool
can_write p = p.unrestrained || is_read_write p.scope

-- allowsCollection
unfoldable pub allowed_in : String → Option NameSet → Bool
unfolding lookup
allowed_in name none = true
allowed_in name (some list) = is_some (lookup name list)

abbrev pub allows_collection : Principal → String → Bool
allows_collection p name = allowed_in name p.collections

-- PermissionDenied, by its message
pub data Denial : Type 0 where
  read_only_scope restricted_to_list not_permitted_to_call : Denial
  no_collection : Denial
  outside_list : String → Denial

-- `switch access`
abbrev pub authorize_access : Principal → Access → Option Denial
authorize_access p access_collection_read = none
authorize_access p access_filtered = none
authorize_access p access_authenticated = none
authorize_access p access_collection_write = if can_write p then none else some read_only_scope
authorize_access p access_create = if can_write p then none else some read_only_scope
authorize_access p access_handle_write = if can_write p then none else some read_only_scope
authorize_access p access_db_read = if db_capable p then none else some restricted_to_list
authorize_access p access_db_admin =
    if not (can_write p)
    then some read_only_scope
    else if db_capable p
    then none
    else some restricted_to_list
authorize_access p access_denied =
    if not p.unrestrained && (not (is_read_write p.scope) || not (db_capable p))
    then some not_permitted_to_call
    else none

unfoldable pub authorize_method : Principal → String → Option Denial
authorize_method p full_method = authorize_access p (or_denied (policy_for full_method))

-- A request field: a string, a repeated string, or of another kind.
pub data Field : Type 0 where
  text : String → Field
  texts : List String → Field
  other_kind : Field

-- `proto_message valid fields` is a proto.Message; `accessors one many` a value of another type, with
-- what its GetCollection and GetCollections return, `none` where it has no such method.
pub data Request : Type 0 where
  proto_message : Bool → (String → Option Field) → Request
  accessors : Option String → Option (List String) → Request

unfoldable pub append_name : List String → String → List String
append_name names n = if n == "" then names else names ++ n ∷ []

unfoldable pub append_names : List String → List String → List String
append_names names [] = names
append_names names (n ∷ ns) = append_names (append_name names n) ns

-- the body of the loop over collectionFieldNames
abbrev pub append_field : List String → Option Field → List String
append_field names none = names
append_field names (some (text n)) = append_name names n
append_field names (some (texts ns)) = append_names names ns
append_field names (some other_kind) = names

unfoldable pub append_fields : (String → Option Field) → List String → List String → List String
append_fields fields names [] = names
append_fields fields names (fname ∷ rest) =
    append_fields fields (append_field names (fields fname)) rest

abbrev pub collection_field_names : List String
collection_field_names = "collection" ∷ "collections" ∷ "name" ∷ []

abbrev pub many_names : Option (List String) → List String
many_names none = []
many_names (some ns) = append_names [] ns

abbrev pub one_name : List String → Option String → List String
one_name names none = names
one_name names (some n) = append_name names n

-- `none` when the request is of no readable type
unfoldable pub request_collections : Request → Option (List String)
unfolding append_name append_names append_fields
request_collections (proto_message valid fields) =
    if valid then some (append_fields fields [] collection_field_names) else none
request_collections (accessors one many) =
    if is_some many || is_some one then some (one_name (many_names many) one) else none

-- `for _, name := range names`
unfoldable pub check_names : Principal → List String → Option Denial
check_names p [] = none
check_names p (name ∷ names) =
    if allows_collection p name then check_names p names else some (outside_list name)

unfoldable pub check_named : Principal → Option (List String) → Option Denial
unfolding check_names
check_named p none = some no_collection
check_named p (some []) = some no_collection
check_named p (some (name ∷ names)) = check_names p (name ∷ names)

-- the access classes of a request that names collections
abbrev pub is_collection_class : Access → Bool
is_collection_class access_collection_read = true
is_collection_class access_collection_write = true
is_collection_class access_create = true
is_collection_class _ = false

unfoldable pub check_class : Principal → Request → Option Access → Option Denial
unfolding request_collections
check_class p req none = none
check_class p req (some access) =
    if is_collection_class access then check_named p (request_collections req) else none

unfoldable pub authorize_request : Principal → String → Request → Option Denial
authorize_request p full_method req =
    if not (restricted p) || p.unrestrained
    then none
    else check_class p req (policy_for full_method)
