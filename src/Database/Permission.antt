-- ===== src/Database/Permission.antt =====
-- internal/interfaces/operation/permission.go: sets of permissions as the bits of an `int64`.
pub mod Bits
pub mod Nodes
use Prim.Native.Nat.{bit_and}
use netwingfs.Prelude.{
  ℕ, zero, suc, ◌+◌, ◌-◌, ◌*◌, Bool, not, Option, none, some, ◌&&◌, ◌==◌, if◌then◌else◌,
}
use netwingfs.Prelude.Bytes.{Bytes, codes, bytes_eq}
use netwingfs.Prelude.Int.{ℤ, pos, negsuc, leb_ℤ}

-- `1 << k`.
unfoldable pub node : ℕ → ℕ
node zero = 1
node (suc k) = 2 * node k

-- The constants, by their places; `user_set_password` and `audit_log_show` have no name below.
abbrev pub admin_entry : ℕ
admin_entry = 0

abbrev pub user_show_list : ℕ
user_show_list = 1

abbrev pub user_get_profile : ℕ
user_get_profile = 2

abbrev pub user_set_password : ℕ
user_set_password = 3

abbrev pub user_edit_base_info : ℕ
user_edit_base_info = 4

abbrev pub user_edit_permission : ℕ
user_edit_permission = 5

abbrev pub user_edit_rating : ℕ
user_edit_rating = 6

abbrev pub activity_publish : ℕ
activity_publish = 7

abbrev pub activity_show_list : ℕ
activity_show_list = 8

abbrev pub activity_edit : ℕ
activity_edit = 9

abbrev pub activity_edit_state : ℕ
activity_edit_state = 10

abbrev pub activity_edit_pilot_state : ℕ
activity_edit_pilot_state = 11

abbrev pub activity_delete : ℕ
activity_delete = 12

abbrev pub audit_log_show : ℕ
audit_log_show = 13

abbrev pub client_send_message : ℕ
client_send_message = 14

abbrev pub client_kill : ℕ
client_kill = 15

-- `PermissionMap`: the place of a permission by its name.
unfoldable pub permission_map : Bytes → Option ℕ
unfolding bytes_eq
permission_map key =
    if bytes_eq key (codes "AdminEntry")
    then some admin_entry
    else if bytes_eq key (codes "UserShowList")
    then some user_show_list
    else if bytes_eq key (codes "UserGetProfile")
    then some user_get_profile
    else if bytes_eq key (codes "UserEditBaseInfo")
    then some user_edit_base_info
    else if bytes_eq key (codes "UserEditPermission")
    then some user_edit_permission
    else if bytes_eq key (codes "UserEditRating")
    then some user_edit_rating
    else if bytes_eq key (codes "ActivityPublish")
    then some activity_publish
    else if bytes_eq key (codes "ActivityShowList")
    then some activity_show_list
    else if bytes_eq key (codes "ActivityEdit")
    then some activity_edit
    else if bytes_eq key (codes "ActivityEditState")
    then some activity_edit_state
    else if bytes_eq key (codes "ActivityEditPilotState")
    then some activity_edit_pilot_state
    else if bytes_eq key (codes "ActivityDelete")
    then some activity_delete
    else if bytes_eq key (codes "ClientSendMessage")
    then some client_send_message
    else if bytes_eq key (codes "ClientKill")
    then some client_kill
    else none

-- `IsValid`.
unfoldable pub is_valid : ℤ → Bool
unfolding node
is_valid p = leb_ℤ (pos 0) p && leb_ℤ p (pos (node client_kill * 2 - 1))

-- The operators on a value `p` and a constant `q`, none of which is negative. `negsuc n` has the
-- complement of the bits of `n`.

-- `HasPermission`.
unfoldable pub has_permission : ℤ → ℕ → Bool
has_permission (pos n) q = not (bit_and n q == 0)
has_permission (negsuc n) q = not (bit_and n q == q)

-- `Grant`.
unfoldable pub grant : ℤ → ℕ → ℤ
grant (pos n) q = pos (n + q - bit_and n q)
grant (negsuc n) q = negsuc (n - bit_and n q)

-- `Revoke`.
unfoldable pub revoke : ℤ → ℕ → ℤ
revoke (pos n) q = pos (n - bit_and n q)
revoke (negsuc n) q = negsuc (n + q - bit_and n q)
