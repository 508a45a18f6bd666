-- ===== src/Flow/Messages.antt =====
-- The error messages of internal/error.go that a flow publishes.
use status_keycard_go.Prelude.{Text, codes}

abbrev pub error_ok : Text
error_ok = codes "ok"

abbrev pub error_connection : Text
error_connection = codes "connection-error"

abbrev pub error_unknown_flow : Text
error_unknown_flow = codes "unknown-flow"

abbrev pub error_not_a_keycard : Text
error_not_a_keycard = codes "not-a-keycard"

abbrev pub error_no_keys : Text
error_no_keys = codes "no-keys"

abbrev pub error_has_keys : Text
error_has_keys = codes "has-keys"

abbrev pub error_require_init : Text
error_require_init = codes "require-init"

abbrev pub error_pairing : Text
error_pairing = codes "pairing"

abbrev pub error_unblocking : Text
error_unblocking = codes "unblocking"

abbrev pub error_signing : Text
error_signing = codes "signing"

abbrev pub error_exporting : Text
error_exporting = codes "exporting"

abbrev pub error_changing : Text
error_changing = codes "changing-credentials"

abbrev pub error_loading : Text
error_loading = codes "loading-keys"

abbrev pub error_store_meta : Text
error_store_meta = codes "storing-metadata"

abbrev pub error_no_data : Text
error_no_data = codes "no-data"

abbrev pub error_reader_list : Text
error_reader_list = codes "no-reader-list"

abbrev pub error_no_reader : Text
error_no_reader = codes "no-reader-found"
