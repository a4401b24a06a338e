-- ===== src/Output/ResponseCode.antt =====
-- The `RESPONSE_CODE_...` constants of src/OutputBuffer.h.
use naemon_livestatus.Prelude.{ℕ}

abbrev pub ok : ℕ
ok = 200

abbrev pub invalid_header : ℕ
invalid_header = 400

abbrev pub not_found : ℕ
not_found = 404

abbrev pub limit_exceeded : ℕ
limit_exceeded = 413

abbrev pub incomplete_request : ℕ
incomplete_request = 451

abbrev pub invalid_request : ℕ
invalid_request = 452
