-- ===== src/Auth/Agreement.antt =====
-- What the policy table of policy.go and the follower's table of readonly.go say of each other.
use scriva.Prelude.{
  String, ◌≡◌, refl, sym, subst, ◌∙◌, Bool, true, false, not, ◌&&◌, Option, none, some, List, [],
  ◌∷◌, All-lookup, All, all, all-All, ◌==◌, beq_iff, string_eq, Bool-cases, inl, inr, if_false,
  arith, bool_ne,
}
use scriva.Auth.{
  Access, access_denied, access_collection_read, access_collection_write, access_create,
  access_db_admin, access_db_read, access_filtered, access_handle_write, access_authenticated,
  Principal, can_write, or_denied, method_policies, policy_for, authorize_access, authorize_method,
}
use scriva.Auth.Follower.{write_methods, member, is_write_method, refuses}

-- the classes that ask for write access
abbrev pub needs_write : Access → Bool
needs_write access_collection_write = true
needs_write access_create = true
needs_write access_db_admin = true
needs_write access_handle_write = true
needs_write _ = false

abbrev pub promote : String
promote = "/scriva.v1.Scriva/Promote"

abbrev agrees : String × Access → Bool
agrees (m, access) = not (bool_ne (is_write_method m) (needs_write access && not (m == promote)))

tables-agree : all agrees method_policies ≡ true
unfolding is_write_method
tables-agree = refl

not_ne : (a b : Bool) → not (bool_ne a b) ≡ true → a ≡ b
not_ne true true h = refl
not_ne true false h = cc h
not_ne false true h = cc h
not_ne false false h = refl

-- On a method that the policy lists, a follower refuses exactly the methods of a class that needs
-- write access, Promote excepted; a leader refuses none.
pub refuses-policy_for :
    (m : String) (access : Access) (is_follower : Bool)
    → policy_for m ≡ some access
    → refuses is_follower m ≡ (is_follower && (needs_write access && not (m == promote)))
unfolding policy_for refuses
refuses-policy_for m access false h = refl
refuses-policy_for m access true h = not_ne _ _ (
    All-lookup (λ e. agrees e ≡ true) m access method_policies h
      (all-All agrees method_policies tables-agree))

member-All {κ} :
    (P : String → Type κ) (m : String) (xs : List String) → member m xs ≡ true → All P xs → P m
unfolding member
member-All P m [] h all_p = cc h
member-All P m (x ∷ xs) h all_p = elim (Bool-cases (x == m)) [
  | inl same ↦ subst P ((beq_iff x m).0 same) all_p.0
  | inr other ↦ member-All P m xs (sym (if_false _ _ _ other) ∙ h) all_p.1
]

abbrev writes : Option Access → Bool
writes none = false
writes (some access) = needs_write access

tables-cover : all (λ m. writes (policy_for m)) write_methods ≡ true
unfolding policy_for
tables-cover = refl

access-writes :
    (p : Principal) (o : Option Access)
    → writes o ≡ true
    → authorize_access p (or_denied o) ≡ none
    → can_write p ≡ true
access-writes p none w h = cc w
access-writes p (some access_denied) w h = cc w
access-writes p (some access_collection_read) w h = cc w
access-writes p (some access_collection_write) w h = ground arith
access-writes p (some access_create) w h = ground arith
access-writes p (some access_db_admin) w h = ground arith
access-writes p (some access_db_read) w h = cc w
access-writes p (some access_filtered) w h = cc w
access-writes p (some access_handle_write) w h = ground arith
access-writes p (some access_authenticated) w h = cc w

-- A principal that may call a method which followers refuse has write access.
authorize_method-is_write_method :
    (p : Principal) (m : String)
    → is_write_method m ≡ true
    → authorize_method p m ≡ none
    → can_write p ≡ true
unfolding authorize_method is_write_method
authorize_method-is_write_method p m w h =
    access-writes p (policy_for m)
      (member-All (λ n. writes (policy_for n) ≡ true) m write_methods w
        (all-All (λ n. writes (policy_for n)) write_methods tables-cover))
      h
