-- ===== src/Tests/Http.antt =====
-- A request, its answer in two chunks, and connections.
use netdisk4tc.Base.{
  ℕ, ◌+◌, ◌≡◌, ◌≢◌, ◌==◌, refl, true, false, Bool, if◌then◌else◌, inr, List, [], ◌∷◌, ◌++◌, none,
  some, zero, suc, Str, codes, eq_str, ok, fault, arith,
}
use netdisk4tc.Dictionary.{find_entry, dict_initialize}
use netdisk4tc.Dictionary.Invariant.{NodupKeys}
use netdisk4tc.Http.{HttpRequest, HttpResponse, ht_ok, ht_host_unavailable}
use netdisk4tc.Http.Connect.{Network, Connected, HttpConnection, http_connect}
use netdisk4tc.Http.Exchange.{Chunks, headers_of}
use netdisk4tc.Http.Lifecycle.{
  ssl, acquires, frees, total, opened, closed, session, initialises, http_connect-failing,
  http_disconnect-http_connect, http_connect-init_once,
}
use netdisk4tc.Http.Malformed.{header_loop-fuel, http_response_fromstr-short_header}
use netdisk4tc.Http.Request.{http_newline, is_narrow, request_line, http_request_tostr}
use netdisk4tc.Http.Response.{header_loop, http_response_fromstr}
use netdisk4tc.Http.RoundTrip.{IsHeaderList, widen, response_text, http_response_fromstr-text}
use netdisk4tc.Http.StatusLine.{StatusLine, IsStatusLine, status_text}
use netdisk4tc.Http.Text.{entries, header_text, http_request_tostr-text}

-- An ANSI code page that is ASCII.
abbrev pub ctow : Str → Str
ctow s = s

abbrev request : HttpRequest
request = record {
  method = 0;
  path = some (codes "/me");
  version = codes "1.0";
  headers = dict_initialize;
  body = some (codes "x=1");
}

abbrev agent : List (Str × Str)
agent = (codes "Agent", codes "tc") ∷ []

http_request_tostr-text_example :
    http_request_tostr (record request { headers = headers_of agent })
    ≡ ok ((request_line 0 (codes "/me") (codes "1.0") ++ header_text agent) ++ http_newline)
unfolding is_narrow
http_request_tostr-text_example =
    http_request_tostr-text (record request { headers = headers_of agent }) (codes "/me") agent refl
      refl (refl, tt)

abbrev pub not_found : StatusLine
not_found = record {
  proto = codes "HTTP";
  version = codes "1.1";
  code = codes "404";
  msg = codes "Not";
  more = some (codes "Found");
}

pub not_found-IsStatusLine : IsStatusLine not_found
not_found-IsStatusLine = record {
  proto_word = (refl, (refl, (refl, (refl, tt))));
  proto_ne = cc;
  word = (refl, (refl, (refl, (refl, (refl, (refl, (refl, (refl, tt))))))));
  version_word = (refl, (refl, (refl, tt)));
  version_ne = cc;
  code_digits = (refl, (refl, (refl, tt)));
  code_pos = omega arith;
  code_fits = omega arith;
  msg_word = (refl, (refl, (refl, tt)));
  msg_ne = cc;
  one_line = (
    refl,
    (
      refl,
      (
        refl,
        (
          refl,
          (
            refl,
            (
              refl,
              (
                refl,
                (
                  refl,
                  (
                    refl,
                    (
                      refl,
                      (
                        refl,
                        (
                          refl,
                          (
                            refl,
                            (
                              refl,
                              (refl, (refl, (refl, (refl, (refl, (refl, (refl, (refl, tt)))))))),
                            ),
                          ),
                        ),
                      ),
                    ),
                  ),
                ),
              ),
            ),
          ),
        ),
      ),
    ),
  );
}

abbrev pub age : List (Str × Str)
age = (codes "Age", codes "7") ∷ []

pub age-IsHeaderList : IsHeaderList age
age-IsHeaderList =
    ((refl, (refl, (refl, tt))), (refl, (refl, (refl, (refl, (refl, (refl, tt)))))), tt)

pub age-NodupKeys : NodupKeys (entries (widen ctow age))
unfolding find_entry
age-NodupKeys = (refl, tt)

abbrev parsed : HttpResponse
parsed = record {
  version = codes "1.1";
  status_code = 404;
  status_msg = codes "Not";
  headers = headers_of age;
  body = codes "gone";
}

http_response_fromstr-text_example :
    http_response_fromstr ctow (some (response_text not_found age (codes "gone")))
    ≡ ok (some parsed)
http_response_fromstr-text_example =
    http_response_fromstr-text ctow not_found age (codes "gone") not_found-IsStatusLine
      age-IsHeaderList age-NodupKeys

-- The same by evaluation.
read_not_found :
    http_response_fromstr ctow (some (response_text not_found age (codes "gone")))
    ≡ ok (some parsed)
unfolding http_response_fromstr
read_not_found = refl

header_loop-fuel_example :
    header_loop ctow 9 dict_initialize (header_text age)
    ≡ header_loop ctow 90 dict_initialize (header_text age)
header_loop-fuel_example =
    header_loop-fuel ctow 9 90 dict_initialize (header_text age) (omega arith) (omega arith)

http_response_fromstr-short_header_example :
    http_response_fromstr ctow (
      some (
        status_text not_found
        ++ (http_newline ++ (codes "Vary:" ++ (http_newline ++ http_newline)))))
    ≡ fault
http_response_fromstr-short_header_example =
    http_response_fromstr-short_header ctow not_found (codes "Vary") (codes "Vary:") http_newline
      not_found-IsStatusLine (cc) (refl, (refl, (refl, (refl, tt))))
      (refl, (refl, (refl, (refl, (refl, tt))))) (inr refl)

-- The response in two chunks.
abbrev pub answer : Str
answer = response_text not_found age (codes "gone")

abbrev pub part_1 : Str
part_1 = codes "HTTP/1.1 404 Not Fou"

abbrev pub part_2 : Str
part_2 =
    codes "nd"
    ++ (http_newline ++ (codes "Age: 7" ++ (http_newline ++ (http_newline ++ codes "gone"))))

abbrev pub parts : List Str
parts = part_1 ∷ part_2 ∷ []

pub parts-Chunks : Chunks parts
parts-Chunks = (
  (
    cc,
    omega arith,
    (
      cc,
      (
        cc,
        (
          cc,
          (
            cc,
            (
              cc,
              (
                cc,
                (
                  cc,
                  (cc, (cc, (cc, (cc, (cc, (cc, (cc, (cc, (cc, (cc, (cc, (cc, (cc, tt))))))))))))),
                ),
              ),
            ),
          ),
        ),
      ),
    ),
  ),
  (
    (
      cc,
      omega arith,
      (
        cc,
        (
          cc,
          (
            cc,
            (
              cc,
              (
                cc,
                (cc, (cc, (cc, (cc, (cc, (cc, (cc, (cc, (cc, (cc, (cc, (cc, (cc, tt))))))))))))),
              ),
            ),
          ),
        ),
      ),
    ),
    tt,
  ),
)

-- `n` times the byte `x`.
abbrev repeated : ℕ → Str
repeated zero = []
repeated (suc n) = 120 ∷ repeated n

abbrev api : HttpConnection
api = record {
  socketd = some 5;
  host = some (codes "api.net");
  port = 80;
  address = 9;
  status = ht_ok;
  ssl = false;
}

-- A network in which `net` resolves to the address 9 and takes connections or does not.
abbrev pub network : Bool → Network
network up = record {
  conn_block = true;
  inet_addr = λ _. none;
  gethostbyname = λ (s : Str). if eq_str s (codes "net") then some 9 else none;
  host_block = true;
  socket = some 5;
  connect = up;
}

-- A connect to `net` at port 443 with SSL.
abbrev dial : Bool → Str → Connected
dial up name = http_connect (network up) false none name 443 true

no-ht_ok : (dial true (codes "no")).code ≢ ht_ok
unfolding http_connect eq_str
no-ht_ok = cc

http_connect-failing_example :
    ((dial true (codes "no")).connection ≡ none)
    × (((dial true (codes "no")).code == ht_host_unavailable) ≡ true)
    × (total (acquires ssl) (dial true (codes "no")).events
        ≡ total (frees ssl) (dial true (codes "no")).events + 1)
unfolding eq_str
http_connect-failing_example =
    http_connect-failing (network true) false none (codes "no") 443 true ssl no-ht_ok

http_disconnect-http_connect_example :
    ((dial true (codes "net")).connection
      ≡ some (record {
        socketd = some 5;
        host = some (codes "net");
        port = 443;
        address = 9;
        status = ht_ok;
        ssl = true;
      }))
    × (total (acquires ssl) (session (network true) false none (codes "net") 443 true)
        ≡ total (frees ssl) (session (network true) false none (codes "net") 443 true))
    × (opened (session (network true) false none (codes "net") 443 true) ≡ 5 ∷ [])
    × (closed (session (network true) false none (codes "net") 443 true) ≡ some 5 ∷ [])
unfolding http_connect eq_str
http_disconnect-http_connect_example =
    http_disconnect-http_connect (network true) false none (codes "net") 443 true ssl 5 refl refl

http_connect-init_once_example :
    (total initialises (dial true (codes "net")).events ≡ 1)
    × ((dial true (codes "net")).is_init_ssl ≡ true)
http_connect-init_once_example =
    http_connect-init_once (network true) false none (codes "net") 443 true
