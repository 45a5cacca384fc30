-- ===== src/Python/Exceptions.antt =====
-- The exceptions that the scripts raise or let through, each with its message.
use frankensteinz_hermes.Base.{String}

pub data Exn : Type 0 where
  gate_error worker_error reviewer_error integrity_error : String → Exn
  qa_error qa_integrity_error value_error runtime_error : String → Exn
  type_error attribute_error key_error json_decode_error unicode_error overflow_error : Exn
  os_error : String → Exn

-- `str(exc)`, where the scripts read it: the interpreter's own errors have texts of its own.
abbrev pub message : Exn → String
message (gate_error m) = m
message (worker_error m) = m
message (reviewer_error m) = m
message (integrity_error m) = m
message (qa_error m) = m
message (qa_integrity_error m) = m
message (value_error m) = m
message (runtime_error m) = m
message (os_error m) = m
message type_error = "type error"
message attribute_error = "attribute error"
message key_error = "key error"
message json_decode_error = "json decode error"
message unicode_error = "unicode error"
message overflow_error = "overflow error"
