-- ===== src/Api/Http.antt =====
-- api/http.cpp: the HTTP status of an error, by its number.
use ot_sec_file_transfer.Base.{
  ℕ, ErrCode, validation, auth, forbidden, notfound, conflict, gone, integrity, unknown_destination,
  unavailable, throttled, io, internal,
}

unfoldable pub status_for : ErrCode → ℕ
status_for validation = 400
status_for auth = 401
status_for forbidden = 403
status_for notfound = 404
status_for conflict = 409
status_for gone = 410
status_for integrity = 422
status_for unknown_destination = 422
status_for unavailable = 503
status_for throttled = 429
status_for io = 500
status_for internal = 500
