-- ===== src/Tests/Arguments.antt =====
-- The server URLs and the times that users type.
use ot_sec_file_transfer.Base.{◌≡◌, refl, true, false, codes, ok, err, validation}
use ot_sec_file_transfer.Net.ServerUrls
use ot_sec_file_transfer.Common.Times.{has_iso_shape, is_digit}
use ot_sec_file_transfer.Common.TimeArgs.{parse_time_arg}

url_with_port :
    ServerUrls.parse (codes "https://files.example:8443/")
    ≡ ok (record { tls = true; host = codes "files.example"; port = codes "8443" })
unfolding ServerUrls.parse
url_with_port = refl

url_without_port :
    ServerUrls.parse (codes "http://files")
    ≡ ok (record { tls = false; host = codes "files"; port = codes "8080" })
unfolding ServerUrls.parse
url_without_port = refl

url_with_path : ServerUrls.parse (codes "http://files/a") ≡ err validation
unfolding ServerUrls.parse
url_with_path = refl

url_port_too_large : ServerUrls.parse (codes "http://files:65536") ≡ err validation
unfolding ServerUrls.parse
url_port_too_large = refl

two_hours_ago : parse_time_arg (codes "2h") 10000 ≡ ok 2800
unfolding parse_time_arg
two_hours_ago = refl

minus_no_days : parse_time_arg (codes "-0d") 10000 ≡ ok 10000
unfolding parse_time_arg
minus_no_days = refl

no_unit : parse_time_arg (codes "12y") 10000 ≡ err validation
unfolding parse_time_arg has_iso_shape is_digit
no_unit = refl
