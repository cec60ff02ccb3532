-- ===== src/Notification/Tokens.antt =====
-- app/services/notification.py, `delete_push_token`, and the devices as a map from push tokens to
-- users.
use mathlib.Core.Option
use desmobapp_backend.Prelude.{
  ◌≡◌, refl, sym, ◌∙◌, ap, subst, true, false, not, ◌&&◌, Option, none, some, String, List, ok, In,
  any, find_first, find_first-In, find_first-absent, find_first-filter_by,
  find_first-filter_by-none, find_first-none, any-filter_by-false, IsUnique-filter_by, any-false,
  filter_by, IsUnique, eq_of_clash, ◌==◌, ==→eq, ==_refl, Bool-cases, Option-cases, inl, inr,
  if◌then◌else◌, &&-true, arith, true_and_false,
}
use desmobapp_backend.Db.{Db, Uuid, NotificationDevice}
use desmobapp_backend.Time.{Env}
use desmobapp_backend.Access.Texts.{text_eq, text_eq_refl, text_eq→eq}
use desmobapp_backend.Notification.Devices.{
  PushTokenCreateRequest, device_clash, find_device, register_push_token, delete_push_token,
}
use desmobapp_backend.Notification.Owners.{
  owner_of, same_device, found_token, owner_after, register_push_token-owners,
}

-- What a removal makes of the owner of a device: none, if it is the device and its owner asks.
abbrev pub owner_unless : Uuid → Uuid → Option NotificationDevice → Option Uuid
owner_unless user_id device_id none = none
owner_unless user_id device_id (some d) =
    if d.id == device_id && d.user_id == user_id then none else some d.user_id

same_token_device :
    (ds : List NotificationDevice) {x y : NotificationDevice}
    → IsUnique device_clash ds
    → In x ds
    → In y ds
    → x.push_token ≡ y.push_token
    → x ≡ y
same_token_device ds {x} {y} unique m k e =
    eq_of_clash device_clash ds unique m k (clashes x y e) (clashes y x (sym e))
  where
    clashes : (a b : NotificationDevice) → a.push_token ≡ b.push_token → device_clash a b ≡ true
    clashes a b h =
        let same : text_eq a.push_token b.push_token ≡ true =
          subst (λ t. text_eq a.push_token t ≡ true) h (text_eq_refl a.push_token) in
        ground arith

module _ (user_id device_id : Uuid) (ds : List NotificationDevice)
    (unique : IsUnique device_clash ds) where
  -- Without a device to remove.
  kept_owner :
      (push_token : String) (o : Option NotificationDevice)
      → any (λ d. d.id == device_id && d.user_id == user_id) ds ≡ false
      → find_device push_token ds ≡ o
      → Option.map (λ (x : NotificationDevice). x.user_id) o ≡ owner_unless user_id device_id o
  kept_owner push_token none unasked e = refl
  kept_owner push_token (some x) unasked e =
      let (m, t) = found_token push_token ds e in
      rw (any-false (λ d. d.id == device_id && d.user_id == user_id) ds unasked m) refl

  -- With the device `d` removed.
  removed_owner :
      (d : NotificationDevice) (push_token : String) (o : Option NotificationDevice)
      → In d ds
      → d.id ≡ device_id
      → d.user_id ≡ user_id
      → find_device push_token ds ≡ o
      → Option.map
          (λ (x : NotificationDevice). x.user_id)
          (find_device push_token (filter_by (λ r. not (r.id == d.id)) ds))
        ≡ owner_unless user_id device_id o
  removed_owner d push_token none m i u e =
      ap (Option.map (λ (x : NotificationDevice). x.user_id)) (
        find_first-none (λ x. text_eq x.push_token push_token)
          (filter_by (λ r. not (r.id == d.id)) ds)
          (any-filter_by-false (λ x. text_eq x.push_token push_token) (λ r. not (r.id == d.id)) ds
            (find_first-absent (λ x. text_eq x.push_token push_token) ds e)))
  removed_owner d push_token (some x) m i u e =
      let (k, t) = found_token push_token ds e in
      elim (Bool-cases (x.id == d.id)) [
        | inl same ↦
            let equal : x ≡ d = same_device ds unique k m (==→eq x.id d.id same) in
            let gone =
              find_first-filter_by-none (λ y. text_eq y.push_token push_token)
                (λ r. not (r.id == d.id)) ds (λ y j keep. unlike equal k t y j keep) in
            ap (Option.map (λ (z : NotificationDevice). z.user_id)) gone ∙ sym (asked equal)
        | inr apart ↦
            ap (Option.map (λ (z : NotificationDevice). z.user_id)) (
              find_first-filter_by (λ y. text_eq y.push_token push_token) (λ r. not (r.id == d.id))
                ds e (ap not apart))
            ∙ sym (unasked apart)
      ]
    where
      asked : x ≡ d → owner_unless user_id device_id (some x) ≡ none
      asked equal =
          let own : (x.id == device_id && x.user_id == user_id) ≡ true =
            subst (λ z. (z.id == device_id && z.user_id == user_id) ≡ true) (sym equal)
              (subst (λ j. (d.id == j && d.user_id == user_id) ≡ true) i
                (subst (λ j. (d.id == d.id && d.user_id == j) ≡ true) u (ground arith))) in
          rw own refl

      unasked : (x.id == d.id) ≡ false → owner_unless user_id device_id (some x) ≡ some x.user_id
      unasked apart =
          let other : (x.id == device_id && x.user_id == user_id) ≡ false =
            subst (λ j. (x.id == j && x.user_id == user_id) ≡ false) i (ground arith) in
          rw other refl

      unlike :
          x ≡ d
          → In x ds
          → x.push_token ≡ push_token
          → (y : NotificationDevice) → In y ds
          → not (y.id == d.id) ≡ true
          → text_eq y.push_token push_token ≡ false
      unlike equal k t y j keep = elim (Bool-cases (text_eq y.push_token push_token)) [
        | inl hit ↦
            let one : y ≡ d =
              same_token_device ds unique j k (text_eq→eq y.push_token push_token hit ∙ sym t)
              ∙ equal in
            absurd (
              true_and_false (subst (λ z. not (z.id == d.id) ≡ true) one keep)
                (ap not (==_refl d.id)))
        | inr n ↦ n
      ]

delete_push_token-owners :
    (user_id device_id : Uuid) (db : Db)
    → IsUnique device_clash db.devices
    → IsUnique device_clash (delete_push_token user_id device_id db).devices
      × ((push_token : String)
          → owner_of push_token (delete_push_token user_id device_id db)
            ≡ owner_unless user_id device_id (find_device push_token db.devices))
unfolding delete_push_token
delete_push_token-owners user_id device_id db unique =
    elim (Option-cases (find_first (λ d. d.id == device_id && d.user_id == user_id) db.devices)) [
      | inl absent ↦
          let after : delete_push_token user_id device_id db ≡ db =
            rw (absent, delete_push_token) refl in
          subst Released (sym after) (
            unique,
            λ push_token.
                kept_owner user_id device_id db.devices unique push_token
                  (find_device push_token db.devices)
                  (find_first-absent (λ d. d.id == device_id && d.user_id == user_id) db.devices
                    absent)
                  refl,
          )
      | inr (d, found) ↦
          let (m, e) =
            find_first-In (λ d. d.id == device_id && d.user_id == user_id) db.devices found in
          let (i, u) = &&-true (d.id == device_id) (d.user_id == user_id) e in
          let after : delete_push_token user_id device_id db
              ≡ record db { devices = filter_by (λ r. not (r.id == d.id)) db.devices } =
            rw (found, delete_push_token) refl in
          subst Released (sym after) (
            IsUnique-filter_by device_clash (λ r. not (r.id == d.id)) db.devices unique,
            λ push_token.
                removed_owner user_id device_id db.devices unique d push_token
                  (find_device push_token db.devices) m (==→eq d.id device_id i)
                  (==→eq d.user_id user_id u) refl,
          )
    ]
  where
    Released : Db → Type 0
    Released after =
        IsUnique device_clash after.devices
        × ((push_token : String)
            → owner_of push_token after
              ≡ owner_unless user_id device_id (find_device push_token db.devices))

-- The devices are a map from push tokens to users, where neither identifiers nor tokens are in use twice,
-- and they stay so. A `register_push_token` that returns makes the caller the owner of the token and leaves the
-- owner of every other token; a `delete_push_token` takes the owner from the token of the
-- device that it names, if the device is the caller's, and leaves the owner of every other token.
pub push_token-owners :
    (env : Env) (user_id : Uuid) (db : Db)
    → IsUnique device_clash db.devices
    → ((payload : PushTokenCreateRequest) (d : NotificationDevice) (db' : Db)
        → register_push_token env user_id payload db ≡ ok (d, db')
        → IsUnique device_clash db'.devices
          × ((push_token : String)
              → owner_of push_token db' ≡ owner_after env user_id payload push_token db))
      × ((device_id : Uuid)
          → IsUnique device_clash (delete_push_token user_id device_id db).devices
            × ((push_token : String)
                → owner_of push_token (delete_push_token user_id device_id db)
                  ≡ owner_unless user_id device_id (find_device push_token db.devices)))
push_token-owners env user_id db unique = (
  λ payload d db'. register_push_token-owners env user_id payload db unique,
  λ device_id. delete_push_token-owners user_id device_id db unique,
)
