-- ===== src/Http/Release.antt =====
-- `http_request_destory` and `http_response_destory`.
use netdisk4tc.Base.{Option, none, some, List, [], ◌∷◌, ◌++◌, Str, map}
use netdisk4tc.Dictionary.{Release, dict_destroy}
use netdisk4tc.Http.{Headers, HttpRequest, HttpResponse}

-- What is given back: a text, a part of the headers, and the object's own block.
pub data HttpRelease : Type 0 where
  free_text : Str → HttpRelease
  free_header : Release Str (Unit {0}) → HttpRelease
  free_object : HttpRelease

abbrev pub freed_text : Option Str → List HttpRelease
freed_text none = []
freed_text (some s) = free_text s ∷ []

abbrev pub freed_headers : Headers → List HttpRelease
freed_headers headers = map free_header (dict_destroy headers)

-- `*request` afterwards, and what is given back.
unfoldable pub http_request_destory : Option HttpRequest → Option HttpRequest × List HttpRelease
unfolding dict_destroy
http_request_destory none = (none, [])
http_request_destory (some r) = (
  none,
  freed_text r.body
      ++ (freed_text r.path
          ++ (free_text r.version ∷ (freed_headers r.headers ++ (free_object ∷ [])))),
)

unfoldable pub http_response_destory : Option HttpResponse → Option HttpResponse × List HttpRelease
unfolding dict_destroy
http_response_destory none = (none, [])
http_response_destory (some r) = (
  none,
  free_text r.body
      ∷ free_text r.status_msg
      ∷ free_text r.version
      ∷ (freed_headers r.headers ++ (free_object ∷ [])),
)
