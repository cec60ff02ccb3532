-- ===== src/Access/Owner.antt =====
-- app/core/permissions.py: the table of roles, against the permissions of the owner.
use desmobapp_backend.Prelude.{
  any, ◌≡◌, ◌↔◌, refl, sym, subst, Bool, true, ◌&&◌, Option, none, some, String, List, [], ◌∷◌, In,
  here, there, In-append_left, In-append_right, find_first, find_first-In, &&-true,
}
use desmobapp_backend.Access.Texts.{text_eq, contains, contains-In, In-sorted_set, sorted_set-In}
use desmobapp_backend.Access.Permissions.{
  Dictionary, owner_permissions, role_permissions, permissions_of, set_of, union, all_permissions,
}

-- Each of the texts is in the other list.
subset : List String → List String → Bool
subset [] ts = true
subset (s ∷ ss) ts = contains ts s && subset ss ts

subset-In : (ss ts : List String) {s : String} → subset ss ts ≡ true → In s ss → In s ts
unfolding subset
subset-In [] ts h m = elim m [ ]
subset-In (x ∷ ss) ts h (here e) =
    subst (λ y. In y ts) (sym e) (contains-In ts (&&-true (contains ts x) (subset ss ts) h).0)
subset-In (x ∷ ss) ts h (there m) = subset-In ss ts (&&-true (contains ts x) (subset ss ts) h).1 m

within_owner : subset (union role_permissions) owner_permissions ≡ true
unfolding subset union contains text_eq any
within_owner = refl

In-union :
    {p : String} (table : Dictionary (List String)) (entry : String × List String)
    → In entry table
    → In p entry.1
    → In p (union table)
unfolding union
In-union [] entry m k = elim m [ ]
In-union {p} (x ∷ table) entry (here e) k =
    In-append_left _ (subst (λ (y : String × List String). In p y.1) e k)
In-union (x ∷ table) entry (there m) k = In-append_right x.1 (In-union table entry m k)

found-In :
    {p : String} (o : Option (String × List String))
    → In p (set_of o)
    → (entry : String × List String) × (o ≡ some entry) × In p entry.1
found-In none m = elim m [ ]
found-In (some entry) m = (entry, refl, m)

permissions_of-union :
    {p : String} (code : String) → In p (permissions_of code) → In p (union role_permissions)
unfolding permissions_of
permissions_of-union code m =
    let (entry, e, k) = found-In (find_first (λ x. text_eq x.0 code) role_permissions) m in
    In-union role_permissions entry (find_first-In (λ x. text_eq x.0 code) role_permissions e).0 k

owner_entry : permissions_of "owner" ≡ owner_permissions
unfolding permissions_of find_first text_eq
owner_entry = refl

-- Whatever the role, each of its permissions is one of the owner's.
permissions_of-owner :
    (code p : String) → In p (permissions_of code) → In p (permissions_of "owner")
permissions_of-owner code p m = subst (In p) (sym owner_entry) (
    subset-In (union role_permissions) owner_permissions within_owner (permissions_of-union code m))

-- The permissions that `all_permissions` lists, which are those that the seed creates, are exactly
-- the owner's.
all_permissions-owner : (p : String) → In p all_permissions ↔ In p (permissions_of "owner")
unfolding all_permissions
all_permissions-owner p = (
  λ m. subst (In p) (sym owner_entry) (
      subset-In (union role_permissions) owner_permissions within_owner
        (sorted_set-In (union role_permissions) m)),
  λ m. In-sorted_set (union role_permissions) (permissions_of-union "owner" m),
)
