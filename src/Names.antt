-- ===== src/Names.antt =====
-- The names that the calls of _zdtm_log_error pass (src/zdtm_net.c, src/zdtm_proto.c and
-- src/zdtm_sync.c), as the code points of the text.
use Prim.Native.String.{String}
use Prim.Native.Char.{code}
use lib_zdtm_sync.Prelude.{ℕ, List, [], ◌∷◌}

abbrev pub codes : String → List ℕ
codes String.[] = []
codes (String.◌∷◌ c s) = code c ∷ codes s

abbrev pub in_send_rqst : List ℕ
in_send_rqst = codes "_zdtm_send_rqst_message"

abbrev pub in_recv : List ℕ
in_recv = codes "_zdtm_recv_message"

abbrev pub in_send_ack : List ℕ
in_send_ack = codes "_zdtm_send_ack_message"

abbrev pub in_device_info_send : List ℕ
in_device_info_send = codes "zdtm_obtain_device_info: _zdtm_wrapped_send_message"

abbrev pub in_device_info_recv : List ℕ
in_device_info_recv = codes "zdtm_obtain_device_info: _zdtm_wrapped_recv_message"

abbrev pub in_initiate_send : List ℕ
in_initiate_send = codes "zdtm_initiate_sync: _zdtm_send_message"

abbrev pub in_initiate_recv : List ℕ
in_initiate_recv = codes "zdtm_initiate_sync: _zdtm_recv_message"

abbrev pub in_initiate_wrapped : List ℕ
in_initiate_wrapped = codes "zdtm_initiate_sync: _zdtm_wrapped_recv_message"
