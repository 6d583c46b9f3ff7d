-- ===== src/Result.antt =====
-- The return codes of include/dimq.h (`enum dimq_err_t`) and the result of a C function that
-- returns one of them and, on success, writes its outputs.
use dimq.Prelude.{◌≡◌, refl, Bool, true, false}

-- `dimq_ERR_SUCCESS` is `ok` of `Result`, and so no constructor here.
pub data Err : Type 0 where
  auth_continue no_subscribers sub_exists conn_pending : Err
  nomem protocol inval no_conn conn_refused not_found conn_lost tls payload_size : Err
  not_supported auth acl_denied unknown errno eai proxy plugin_defer malformed_utf8 : Err
  keepalive lookup malformed_packet duplicate_property tls_handshake : Err
  qos_not_supported oversize_packet ocsp timeout retain_not_supported : Err
  topic_alias_invalid administrative_action already_exists : Err

-- `fault` is no C value: an access outside an array or a failed `assert`.
pub data Result (Out : Type 0) : Type 0 where
  ok : Out → Result Out
  err : Err → Result Out
  fault : Result Out

-- A function that returns a code and no value.
abbrev pub Status : Type 0
Status = Result (Unit {0})

abbrev pub success : Status
success = ok tt

-- `if(rc) return rc;`, and then the rest of the function
infixl 5 ◌>>=◌ ◌>>◌
abbrev pub ◌>>=◌ : {In Out : Type 0} → Result In → (In → Result Out) → Result Out
rc >>= rest = elim rc [ ok out ↦ rest out | err code ↦ err code | fault ↦ fault ]

abbrev pub ◌>>◌ : {Out : Type 0} → Status → Result Out → Result Out
rc >> rest = elim rc [ ok _ ↦ rest | err code ↦ err code | fault ↦ fault ]

-- `if(!test) return code;`
abbrev pub guard : Bool → Err → Status
guard test code = elim test [ true ↦ success | false ↦ err code ]

-- Where the whole succeeded, the call in front did.
pub >>=-success :
    {In Out : Type 0} (rc : Result In) (rest : In → Result Out) {out : Out}
    → (rc >>= rest) ≡ ok out
    → (v : In) × (rc ≡ ok v) × (rest v ≡ ok out)
>>=-success (ok v) rest same = (v, refl, same)
>>=-success (err code) rest same = cc
>>=-success fault rest same = cc
