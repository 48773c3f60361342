-- ===== src/Protocol/Const.antt =====
-- The constants of custom_components/bthome_writable/const.py.
use bthome_writable.Common.{ℕ, Bool, true, false}

abbrev pub declaration_object_id : ℕ
declaration_object_id = 0xFF

abbrev pub packet_id_object_id : ℕ
packet_id_object_id = 0x00

abbrev pub command_object_id : ℕ
command_object_id = 0x3B

abbrev pub settings_revision_object_id : ℕ
settings_revision_object_id = 0x65

abbrev pub allow_counter_sync : Bool
allow_counter_sync = true

abbrev pub fold_a_due_read_into_a_write : Bool
fold_a_due_read_into_a_write = true

abbrev pub device_info_encrypted : ℕ
device_info_encrypted = 1

abbrev pub device_info_mac_included : ℕ
device_info_mac_included = 2

abbrev pub device_info_trigger_based : ℕ
device_info_trigger_based = 4

abbrev pub device_info_byte_write : ℕ
device_info_byte_write = 0xFF

abbrev pub device_info_byte_read : ℕ
device_info_byte_read = 0xFE

abbrev pub default_max_connections : ℕ
default_max_connections = 2

abbrev pub confirm_writes_by_reading_back : Bool
confirm_writes_by_reading_back = true

abbrev pub an_unchanged_entry_fails_the_write : Bool
an_unchanged_entry_fails_the_write = false

abbrev pub allow_plaintext_downgrade : Bool
allow_plaintext_downgrade = false

abbrev pub counter_stride : ℕ
counter_stride = 64

abbrev pub resync_jump : ℕ
resync_jump = 100_000

abbrev pub authentication_failures_before_reauth : ℕ
authentication_failures_before_reauth = 2

abbrev pub counter_restart_ceiling : ℕ
counter_restart_ceiling = 100

-- `READ_RETRY`, in milliseconds.
abbrev pub read_retry : ℕ
read_retry = 10_000

abbrev pub comfortable_mtu : ℕ
comfortable_mtu = 64

abbrev pub att_write_overhead : ℕ
att_write_overhead = 3

abbrev pub default_mtu_payload : ℕ
default_mtu_payload = 20
