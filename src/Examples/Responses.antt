-- ===== src/Examples/Responses.antt =====
-- Responses.
use fq_client_go.Common.{true, [], ◌∷◌, codes, ◌≡◌, arith}
use fq_client_go.Errors.{ok}
use fq_client_go.Types.{QuotaInfo}
use fq_client_go.Response.Readers.{
  HelloInfo, fields, resp_data_to_values, parse_quota_info_response,
}
use fq_client_go.Response.Frame.{success_of}
use fq_client_go.Response.Wire.{ok_wire, HelloFits, quota_info_fields}
use fq_client_go.Response.Replies.{quota_info, replies-ReadsAs}
use fq_client_go.Response.Exact.{AllExact, parsers-AllExact}
use fq_client_go.Response.Values.{parse_all, resp_data_to_values_lem}
use fq_client_go.Response.Settled.{AllSettled, parsers-AllSettled}
use fq_client_go.Response.Protocol.{ErrorRead, parse_error-ErrorRead}

parsers-AllSettled_example : AllSettled (codes "ok|1;2;")
parsers-AllSettled_example = parsers-AllSettled (codes "ok|1;2;")

resp_data_to_values_lem_example :
    resp_data_to_values (codes "3;4") ≡ parse_all (fields (codes "3;4"))
resp_data_to_values_lem_example = resp_data_to_values_lem (codes "3;4")

parse_error-ErrorRead_example : ErrorRead (codes "4001|no such quota")
parse_error-ErrorRead_example = parse_error-ErrorRead (codes "4001|no such quota")

abbrev one_client : QuotaInfo
one_client = record {
  limit = 10;
  used = 4;
  remaining = 6;
  clients = record { client_id = codes "a"; amount = 4; expires_at = 1700000000 } ∷ [];
}

replies-ReadsAs_example :
    parse_quota_info_response (ok_wire (quota_info_fields one_client)) ≡ ok (success_of one_client)
replies-ReadsAs_example = replies-ReadsAs (quota_info one_client) (record {
  limit = omega arith;
  used = omega arith;
  remaining = omega arith;
  clients =
      (record { client_id = omega arith; amount = omega arith; expires_at = omega arith }, tt);
})

parsers-AllExact_example : AllExact (codes "ok|1;4;9;1;60")
parsers-AllExact_example = parsers-AllExact (codes "ok|1;4;9;1;60")

abbrev pub server_info : HelloInfo
server_info = record {
  version = 1;
  max_message_size = 8192;
  auth_required = true;
  role = codes "master";
}

pub server_info-HelloFits : HelloFits server_info
server_info-HelloFits = record {
  version = omega arith;
  max_message_size = omega arith;
  positive = omega arith;
  role = omega arith;
}
