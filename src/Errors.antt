-- ===== src/Errors.antt =====
-- The error codes of include/err.h, each by its absolute value: a `status_t` is 0 or minus a code.
use new_explorer_aios.Prelude.{ℕ}

abbrev pub no_error : ℕ
no_error = 0

abbrev pub err_generic : ℕ
err_generic = 1

abbrev pub err_not_found : ℕ
err_not_found = 2

abbrev pub err_not_ready : ℕ
err_not_ready = 3

abbrev pub err_no_msg : ℕ
err_no_msg = 4

abbrev pub err_no_memory : ℕ
err_no_memory = 5

abbrev pub err_already_started : ℕ
err_already_started = 6

abbrev pub err_not_valid : ℕ
err_not_valid = 7

abbrev pub err_invalid_args : ℕ
err_invalid_args = 8

abbrev pub err_not_enough_buffer : ℕ
err_not_enough_buffer = 9

abbrev pub err_not_suspended : ℕ
err_not_suspended = 10

abbrev pub err_object_destroyed : ℕ
err_object_destroyed = 11

abbrev pub err_not_blocked : ℕ
err_not_blocked = 12

abbrev pub err_timed_out : ℕ
err_timed_out = 13

abbrev pub err_already_exists : ℕ
err_already_exists = 14

abbrev pub err_channel_closed : ℕ
err_channel_closed = 15

abbrev pub err_offline : ℕ
err_offline = 16

abbrev pub err_not_allowed : ℕ
err_not_allowed = 17

abbrev pub err_bad_path : ℕ
err_bad_path = 18

abbrev pub err_already_mounted : ℕ
err_already_mounted = 19

abbrev pub err_io : ℕ
err_io = 20

abbrev pub err_not_dir : ℕ
err_not_dir = 21

abbrev pub err_not_file : ℕ
err_not_file = 22

abbrev pub err_recurse_too_deep : ℕ
err_recurse_too_deep = 23

abbrev pub err_not_supported : ℕ
err_not_supported = 24

abbrev pub err_too_big : ℕ
err_too_big = 25

abbrev pub err_cancelled : ℕ
err_cancelled = 26

abbrev pub err_not_implemented : ℕ
err_not_implemented = 27

abbrev pub err_checksum_fail : ℕ
err_checksum_fail = 28

abbrev pub err_crc_fail : ℕ
err_crc_fail = 29

abbrev pub err_cmd_unknown : ℕ
err_cmd_unknown = 30

abbrev pub err_bad_state : ℕ
err_bad_state = 31

abbrev pub err_bad_len : ℕ
err_bad_len = 32

abbrev pub err_busy : ℕ
err_busy = 33

abbrev pub err_thread_detached : ℕ
err_thread_detached = 34

abbrev pub err_i2c_nack : ℕ
err_i2c_nack = 35

abbrev pub err_already_expired : ℕ
err_already_expired = 36

abbrev pub err_out_of_range : ℕ
err_out_of_range = 37

abbrev pub err_not_configured : ℕ
err_not_configured = 38

abbrev pub err_not_mounted : ℕ
err_not_mounted = 39

abbrev pub err_fault : ℕ
err_fault = 40

abbrev pub err_no_resources : ℕ
err_no_resources = 41

abbrev pub err_bad_handle : ℕ
err_bad_handle = 42

abbrev pub err_access_denied : ℕ
err_access_denied = 43

abbrev pub err_partial_write : ℕ
err_partial_write = 44

abbrev pub err_user_base : ℕ
err_user_base = 16384
