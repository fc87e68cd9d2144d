-- ===== src/Response/Lists.antt =====
-- The responses that carry lists: quota information, scans, and the values of several keys.
use fq_client_go.Common.{
  ℕ, suc, ◌*◌, ◌%◌, ◌-◌, ◌≡◌, refl, false, List, [], ◌∷◌, All, arith, length, ltb, ◌==◌, not, ◌||◌,
}
use fq_client_go.Errors.{ok}
use fq_client_go.Types.{
  QuotaClientInfo, QuotaInfo, ScanKey, ScanResult, zero_quota_info, zero_scan_result,
}
use fq_client_go.Response.Readers.{
  read_clients, read_quota_fields, read_quota_info, parse_quota_info_response, read_keys,
  read_scan_fields, read_scan, parse_scan_response,
}
use fq_client_go.Response.Frame.{uint_field-format_uint, success_of}
use fq_client_go.Response.Wire.{
  ok_wire, IsField, number-IsField, parse_ok_wire, client_fields, quota_info_fields, key_fields,
  scan_fields, ClientFits, QuotaInfoFits, KeyFits, ScanFits,
}
use fq_client_go.Response.RoundTrip.{mod_fits}

read_clients-fields :
    (cs : List QuotaClientInfo) → All ClientFits cs → read_clients (client_fields cs) ≡ ok cs
unfolding read_clients
read_clients-fields [] h = refl
read_clients-fields (c ∷ cs) (f, h) = rw (
  uint_field-format_uint 64 c.amount f.amount,
  uint_field-format_uint 32 c.expires_at f.expires_at,
  read_clients-fields cs h,
  mod_fits c.expires_at f.expires_at,
)

client_fields-IsField :
    (cs : List QuotaClientInfo) → All ClientFits cs → All IsField (client_fields cs)
client_fields-IsField [] h = tt
client_fields-IsField (c ∷ cs) (f, h) = (
  f.client_id,
  (number-IsField c.amount, (number-IsField c.expires_at, client_fields-IsField cs h)),
)

length-client_fields : (cs : List QuotaClientInfo) → length (client_fields cs) ≡ length cs * 3
length-client_fields [] = refl
length-client_fields (c ∷ cs) = omega (arith, length-client_fields cs)

-- Three fields for the totals and three for each client pass the test on their number.
quota_guard :
    (n m : ℕ)
    → n ≡ m * 3
    → (ltb (suc (suc (suc n))) 3 || not ((suc (suc (suc n)) - 3) % 3 == 0)) ≡ false
quota_guard n m h = ground arith

read_quota_info-fields :
    (q : QuotaInfo) → QuotaInfoFits q → read_quota_info (quota_info_fields q) ≡ ok q
unfolding read_quota_info read_quota_fields
read_quota_info-fields q h = rw (
  quota_guard (length (client_fields q.clients)) (length q.clients)
      (length-client_fields q.clients),
  uint_field-format_uint 64 q.limit h.limit,
  uint_field-format_uint 64 q.used h.used,
  uint_field-format_uint 64 q.remaining h.remaining,
  read_clients-fields q.clients h.clients,
)

-- An `ok` frame with quota information and three fields for each client, whose names hold no `;` and
-- whose numbers fit their words, is read as that information, all clients in order.
pub parse_quota_info_response-wire :
    (q : QuotaInfo)
    → QuotaInfoFits q
    → parse_quota_info_response (ok_wire (quota_info_fields q)) ≡ ok (success_of q)
unfolding parse_quota_info_response
parse_quota_info_response-wire q h =
    parse_ok_wire zero_quota_info read_quota_info (quota_info_fields q) q (cc)
      (
        number-IsField q.limit,
        (
          number-IsField q.used,
          (number-IsField q.remaining, client_fields-IsField q.clients h.clients),
        ),
      )
      (read_quota_info-fields q h)

read_keys-fields : (ks : List ScanKey) → All KeyFits ks → read_keys (key_fields ks) ≡ ok ks
unfolding read_keys
read_keys-fields [] h = refl
read_keys-fields (k ∷ ks) (f, h) =
    rw (
      uint_field-format_uint 32 k.window f.window,
      read_keys-fields ks h,
      mod_fits k.window f.window,
    )

key_fields-IsField : (ks : List ScanKey) → All KeyFits ks → All IsField (key_fields ks)
key_fields-IsField [] h = tt
key_fields-IsField (k ∷ ks) (f, h) = (f.key, (number-IsField k.window, key_fields-IsField ks h))

length-key_fields : (ks : List ScanKey) → length (key_fields ks) ≡ length ks * 2
length-key_fields [] = refl
length-key_fields (k ∷ ks) = omega (arith, length-key_fields ks)

scan_guard : (n m : ℕ) → n ≡ m * 2 → (ltb (suc n) 1 || not ((suc n - 1) % 2 == 0)) ≡ false
scan_guard n m h = ground arith

read_scan-fields : (r : ScanResult) → ScanFits r → read_scan (scan_fields r) ≡ ok r
unfolding read_scan read_scan_fields
read_scan-fields r h = rw (
  scan_guard (length (key_fields r.keys)) (length r.keys) (length-key_fields r.keys),
  read_keys-fields r.keys h.keys,
)

-- An `ok` frame with a cursor and two fields for each key, whose texts hold no `;` and whose windows
-- fit their word, is read as that page, all keys in order.
pub parse_scan_response-wire :
    (r : ScanResult)
    → ScanFits r
    → parse_scan_response (ok_wire (scan_fields r)) ≡ ok (success_of r)
unfolding parse_scan_response
parse_scan_response-wire r h =
    parse_ok_wire zero_scan_result read_scan (scan_fields r) r (cc)
      (h.cursor, key_fields-IsField r.keys h.keys) (read_scan-fields r h)
