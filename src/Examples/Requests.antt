-- ===== src/Examples/Requests.antt =====
-- Commands.
use fq_client_go.Common.{some, [], ◌∷◌, codes, ◌≡◌, All, arith}
use fq_client_go.Text.{split}
use fq_client_go.Command.{space}
use fq_client_go.Command.Request.{Request, quota_acquire, encode, words}
use fq_client_go.Command.Layout.{IsWord}
use fq_client_go.Command.Grammar.{decode}
use fq_client_go.Command.Decode.{normal, decode-encode}
use fq_client_go.Decimal.{format_uint, digits}

abbrev acquire : Request
acquire = quota_acquire (codes "jobs") 12 (codes "worker-1") (30 ∷ [])

acquire-plain : All IsWord (words acquire)
unfolding words format_uint digits
acquire-plain = omega arith

decode-encode_example : decode (split (encode acquire) space) ≡ some (normal acquire)
decode-encode_example = decode-encode acquire acquire-plain (omega arith, (omega arith, tt))
