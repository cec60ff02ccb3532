-- ===== src/Notification/Owners.antt =====
-- app/services/notification.py, `register_push_token`: whose device a push token is.
use mathlib.Core.Option
use desmobapp_backend.Prelude.{
  ◌≡◌, refl, sym, ◌∙◌, ap, subst, true, false, Option, none, some, String, List, [], ◌∷◌, ◌++◌, ok,
  In, any, find_first-In, find_first-absent, find_first-snoc, find_first-snoc_other,
  find_first-update_where-map, update_where, IsUnique, IsUnique-snoc, IsUnique-update_where,
  eq_of_clash, raise_if-eq-ok, >>=-eq-ok, ok-pair, ok-injective, ◌==◌, ==→eq, ==_refl, Bool-cases,
  Option-cases, inl, inr, if◌then◌else◌, arith, true_and_false,
}
use desmobapp_backend.Db.{Db, Uuid, NotificationDevice}
use desmobapp_backend.Time.{Env}
use desmobapp_backend.Access.Texts.{text_eq, text_eq_refl, text_eq→eq}
use desmobapp_backend.Notification.Devices.{
  PushTokenCreateRequest, device_clash, insert_device, find_device, new_device, seen_device,
  register_push_token,
}

-- The user that the device with a push token belongs to.
abbrev pub owner_of : String → Db → Option Uuid
owner_of push_token db =
    Option.map (λ (d : NotificationDevice). d.user_id) (find_device push_token db.devices)

-- Where the devices are unique, the device with a token is the only row with it.
pub same_device :
    (ds : List NotificationDevice) {x y : NotificationDevice}
    → IsUnique device_clash ds
    → In x ds
    → In y ds
    → x.id ≡ y.id
    → x ≡ y
same_device ds {x} {y} unique m k e =
    eq_of_clash device_clash ds unique m k (clashes x y e) (clashes y x (sym e))
  where
    clashes : (a b : NotificationDevice) → a.id ≡ b.id → device_clash a b ≡ true
    clashes a b h =
        let same : (a.id == b.id) ≡ true = subst (λ i. (a.id == i) ≡ true) h (==_refl a.id) in
        ground arith

pub found_token :
    (push_token : String) (ds : List NotificationDevice) {d : NotificationDevice}
    → find_device push_token ds ≡ some d
    → In d ds × (d.push_token ≡ push_token)
found_token push_token ds {d} h =
    let (m, e) = find_first-In (λ x. text_eq x.push_token push_token) ds h in
    (m, text_eq→eq d.push_token push_token e)

module _ (env : Env) (user_id : Uuid) (payload : PushTokenCreateRequest) where
  -- What a registration makes of the owners.
  abbrev pub owner_after : String → Db → Option Uuid
  owner_after push_token db =
      if text_eq push_token payload.push_token then some user_id else owner_of push_token db

  -- The assignments to the device `d`, seen from a device `o` that another token finds.
  other_owner :
      (ds : List NotificationDevice) (d : NotificationDevice) (push_token : String)
      → IsUnique device_clash ds
      → find_device payload.push_token ds ≡ some d
      → text_eq push_token payload.push_token ≡ false
      → (o : Option NotificationDevice) → find_device push_token ds ≡ o
      → Option.map
          (λ (x : NotificationDevice). x.user_id)
          (Option.map
            (λ (x : NotificationDevice).
              if x.id == d.id then seen_device env user_id payload x else x)
            o)
        ≡ Option.map (λ (x : NotificationDevice). x.user_id) o
  other_owner ds d push_token unique found other none e = refl
  other_owner ds d push_token unique found other (some x) e =
      let (m, t) = found_token push_token ds e in
      let (k, t') = found_token payload.push_token ds found in
      elim (Bool-cases (x.id == d.id)) [
        | inl same ↦
            let equal = same_device ds unique m k (==→eq x.id d.id same) in
            let tokens : push_token ≡ payload.push_token =
              sym t ∙ ap (λ (y : NotificationDevice). y.push_token) equal ∙ t' in
            absurd (
              true_and_false (text_eq_refl push_token)
                (subst (λ y. text_eq push_token y ≡ false) (sym tokens) other))
        | inr apart ↦ rw apart refl
      ]

  seen_owner :
      (db : Db) (d : NotificationDevice) (push_token : String)
      → IsUnique device_clash db.devices
      → find_device payload.push_token db.devices ≡ some d
      → Option.map
          (λ (x : NotificationDevice). x.user_id)
          (find_device push_token
            (update_where (λ r. r.id == d.id) (seen_device env user_id payload) db.devices))
        ≡ owner_after push_token db
  seen_owner db d push_token unique found =
      ap (Option.map (λ (x : NotificationDevice). x.user_id)) (
        find_first-update_where-map (λ x. text_eq x.push_token push_token) (λ r. r.id == d.id)
          (seen_device env user_id payload) (λ x. refl) db.devices)
      ∙ elim (Bool-cases (text_eq push_token payload.push_token)) [
        | inl same ↦
            let found' : find_device push_token db.devices ≡ some d =
              subst (λ t. find_device t db.devices ≡ some d)
                (sym (text_eq→eq push_token payload.push_token same)) found in
            rw (same, found', ==_refl d.id) refl
        | inr other ↦ rw other (
            other_owner db.devices d push_token unique found other
              (find_device push_token db.devices) refl)
      ]

  added_owner :
      (db : Db) (push_token : String)
      → any (λ x. text_eq x.push_token payload.push_token) db.devices ≡ false
      → Option.map
          (λ (x : NotificationDevice). x.user_id)
          (find_device push_token (db.devices ++ new_device env user_id payload ∷ []))
        ≡ owner_after push_token db
  added_owner db push_token unused = elim (Bool-cases (text_eq push_token payload.push_token)) [
    | inl same ↦
        let tokens = text_eq→eq push_token payload.push_token same in
        rw same (
          ap (Option.map (λ (x : NotificationDevice). x.user_id)) (
            find_first-snoc (λ x. text_eq x.push_token push_token) db.devices
              (new_device env user_id payload)
              (subst (λ t. any (λ x. text_eq x.push_token t) db.devices ≡ false) (sym tokens)
                unused)
              (subst (λ t. text_eq payload.push_token t ≡ true) (sym tokens)
                (text_eq_refl payload.push_token))))
    | inr other ↦ rw other (
        ap (Option.map (λ (x : NotificationDevice). x.user_id)) (
          find_first-snoc_other (λ x. text_eq x.push_token push_token) db.devices
            (new_device env user_id payload) (flipped other)))
  ]
    where
      flipped :
          text_eq push_token payload.push_token ≡ false
          → text_eq payload.push_token push_token ≡ false
      flipped h = elim (Bool-cases (text_eq payload.push_token push_token)) [
        | inl t ↦ absurd (
            true_and_false (text_eq_refl push_token) (
              subst (λ y. text_eq push_token y ≡ false) (text_eq→eq payload.push_token push_token t)
                h))
        | inr n ↦ n
      ]

  pub register_push_token-owners :
      (db : Db) {d : NotificationDevice} {db' : Db}
      → IsUnique device_clash db.devices
      → register_push_token env user_id payload db ≡ ok (d, db')
      → IsUnique device_clash db'.devices
        × ((push_token : String) → owner_of push_token db' ≡ owner_after push_token db)
  unfolding register_push_token insert_device
  register_push_token-owners db {d} {db'} unique e =
      elim (Option-cases (find_device payload.push_token db.devices)) [
        | inl absent ↦
            let row = new_device env user_id payload in
            let (added, e1, e2) =
              >>=-eq-ok (insert_device row db) _ (rw (absent, register_push_token) at e) in
            let (fresh, e3) = raise_if-eq-ok (any (λ r. device_clash r row) db.devices) _ _ e1 in
            let after : db' ≡ record db { devices = db.devices ++ row ∷ [] } =
              (ok-pair e2).1 ∙ sym (ok-injective e3) in
            subst
              (λ (x : Db).
                IsUnique device_clash x.devices
                × ((push_token : String) → owner_of push_token x ≡ owner_after push_token db))
              (sym after)
              (
                IsUnique-snoc device_clash db.devices row unique fresh,
                λ push_token. added_owner db push_token (
                    find_first-absent (λ x. text_eq x.push_token payload.push_token) db.devices
                      absent),
              )
        | inr (known, found) ↦
            let after = (ok-pair (rw (found, register_push_token) at e)).1 in
            subst
              (λ (x : Db).
                IsUnique device_clash x.devices
                × ((push_token : String) → owner_of push_token x ≡ owner_after push_token db))
              (sym after)
              (
                IsUnique-update_where device_clash (λ r. r.id == known.id)
                    (seen_device env user_id payload) (λ x y. refl) (λ x y. refl) db.devices unique,
                λ push_token. seen_owner db known push_token unique found,
              )
      ]
