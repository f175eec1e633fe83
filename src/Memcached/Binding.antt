-- ===== src/Memcached/Binding.antt =====
-- The functions of src/ext/memcached/memcached.h, as the proxy finds them in the extension.
use kvproxy.Base.{ℕ, false, Option, none, some, List}
use kvproxy.Extension.{ExtRet, Req, Resp, Functions}
use kvproxy.Memcached.Header.{Header}
use kvproxy.Memcached.Request.{Parse, Statics, parse_req, create_req, create_req_async}
use kvproxy.Memcached.Response.{ParseResp, parse_resp, create_resp}

abbrev pub requests_of : Option (ExtRet × Parse) → Option (ExtRet × (ℕ × List Req))
requests_of none = none
requests_of (some (ret, s)) = some (ret, (s.position, s.req_data))

abbrev responses_of : Option (ExtRet × ParseResp) → Option (ExtRet × (ℕ × List Resp))
responses_of none = none
responses_of (some (ret, s)) = some (ret, (s.position, s.resp_data))

-- The extension, after it has read the configuration. `header` stands for what the parsers' local
-- variable holds before they set it, and is_agin of parse_resp starts unset.
unfoldable pub memcached : ℕ → Statics → Header → Functions
unfolding parse_req create_req create_req_async parse_resp create_resp
memcached fuel t header = record {
  parse_req = λ mem size r.
      requests_of
        (parse_req fuel t mem size (record { position = r.0; req_data = r.1; header = header }));
  create_req = create_req;
  create_req_async = create_req_async;
  parse_resp = λ mem size r. responses_of (
      parse_resp fuel mem size
        (record { position = r.0; resp_data = r.1; header = header; is_again = false }));
  create_resp = create_resp;
}
