-- ===== src/Auth/Follower.antt =====
-- server/readonly.go: the methods that a read-only follower refuses.
use scriva.Prelude.{String, Bool, true, false, ◌&&◌, List, [], ◌∷◌, ◌==◌, string_eq, if◌then◌else◌}

abbrev pub write_methods : List String
write_methods =
    "/scriva.v1.Scriva/CreateCollection" ∷ "/scriva.v1.Scriva/DropCollection"
    ∷ "/scriva.v1.Scriva/Insert" ∷ "/scriva.v1.Scriva/InsertMany" ∷ "/scriva.v1.Scriva/Update"
    ∷ "/scriva.v1.Scriva/Delete" ∷ "/scriva.v1.Scriva/Upsert" ∷ "/scriva.v1.Scriva/UpdateByKey"
    ∷ "/scriva.v1.Scriva/DeleteByKey" ∷ "/scriva.v1.Scriva/UpdateIfRev"
    ∷ "/scriva.v1.Scriva/EnsureIndex" ∷ "/scriva.v1.Scriva/DropIndex" ∷ "/scriva.v1.Scriva/BeginTx"
    ∷ "/scriva.v1.Scriva/CommitTx" ∷ "/scriva.v1.Scriva/RollbackTx" ∷ "/scriva.v1.Scriva/Compact"
    ∷ "/scriva.v1.Scriva/BeginXTx" ∷ "/scriva.v1.Scriva/StageXTx" ∷ "/scriva.v1.Scriva/GetXTx"
    ∷ "/scriva.v1.Scriva/CommitXTx" ∷ "/scriva.v1.Scriva/RollbackXTx" ∷ []

-- `_, ok := set[key]`
unfoldable pub member : String → List String → Bool
member m [] = false
member m (x ∷ xs) = if x == m then true else member m xs

unfoldable pub is_write_method : String → Bool
unfolding member
is_write_method full_method = member full_method write_methods

-- the guard of both interceptors: `true` is FailedPrecondition, `false` a call of the handler
unfoldable pub refuses : Bool → String → Bool
unfolding is_write_method
refuses is_follower full_method = is_follower && is_write_method full_method
