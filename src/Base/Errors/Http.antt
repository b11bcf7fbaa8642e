-- ===== src/Base/Errors/Http.antt =====
-- error/http_error.rs: the well-known statuses and their errors.
use modo.Base.{ℕ}
use modo.Base.Text.{Text, codes}
use modo.Base.Errors.{Error, new}

pub data HttpError : Type 0 where
  bad_request unauthorized forbidden not_found method_not_allowed conflict gone : HttpError
  unprocessable_entity too_many_requests payload_too_large internal_server_error : HttpError
  bad_gateway service_unavailable gateway_timeout : HttpError

abbrev pub status_code : HttpError → ℕ
status_code bad_request = 400
status_code unauthorized = 401
status_code forbidden = 403
status_code not_found = 404
status_code method_not_allowed = 405
status_code conflict = 409
status_code gone = 410
status_code unprocessable_entity = 422
status_code too_many_requests = 429
status_code payload_too_large = 413
status_code internal_server_error = 500
status_code bad_gateway = 502
status_code service_unavailable = 503
status_code gateway_timeout = 504

abbrev pub reason : HttpError → Text
reason bad_request = codes "Bad Request"
reason unauthorized = codes "Unauthorized"
reason forbidden = codes "Forbidden"
reason not_found = codes "Not Found"
reason method_not_allowed = codes "Method Not Allowed"
reason conflict = codes "Conflict"
reason gone = codes "Gone"
reason unprocessable_entity = codes "Unprocessable Entity"
reason too_many_requests = codes "Too Many Requests"
reason payload_too_large = codes "Payload Too Large"
reason internal_server_error = codes "Internal Server Error"
reason bad_gateway = codes "Bad Gateway"
reason service_unavailable = codes "Service Unavailable"
reason gateway_timeout = codes "Gateway Timeout"

abbrev pub error_of : HttpError → Error
error_of e = new (status_code e) (reason e)
