-- ===== src/Tests/Release.antt =====
-- What a script's call gives back, with the response of Tests.Http.
use netdisk4tc.Base.{◌≡◌, refl, true, false, some, none, [], codes, eq_str, Run, ok, fault}
use netdisk4tc.Http.{http_method_get}
use netdisk4tc.Http.Exchange.{chunks}
use netdisk4tc.Tests.Http.{ctow, parts, network}
use netdisk4tc.Wrapper.{HttpCall}
use netdisk4tc.Wrapper.Release.{Called, http_call}

abbrev call : HttpCall
call = record {
  host = some (codes "net");
  path = some (codes "/x");
  body = none;
  method = http_method_get;
  port = 443;
  is_ssl = true;
}

abbrev nothing : Called
nothing = record { result = none; events = []; released = []; request = none }

abbrev returned : Run Called → Called
returned (ok c) = c
returned fault = nothing

unfoldable called : Called
called = returned (http_call ctow (network true) false (chunks parts) call)

called-result : called.result ≡ some (codes "gone")
unfolding called http_call eq_str
called-result = refl
