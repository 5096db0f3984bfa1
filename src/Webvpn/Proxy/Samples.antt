-- ===== src/Webvpn/Proxy/Samples.antt =====
-- A handler and a request that the tests start from.
use wvpn.Base.{true, false, [], ◌∷◌, none, some}
use wvpn.Text.{codes}
use wvpn.Webvpn.Url.{Url, UrlLib}
use wvpn.Webvpn.Guard.{Guard}
use wvpn.Webvpn.Proxy.{Handler, plainly, Inbound, ReqInfo, Browser}

abbrev pub site : Url
site = record {
  scheme = codes "https";
  host = codes "x.cn";
  path = codes "/a";
  query = codes "u=1&v=2";
  force_query = false;
  fragment = [];
}

-- Every text parses as the same address, and no value needs escaping.
abbrev pub lib : UrlLib
lib = record {
  parse = λ s. some site;
  resolve = λ u s. some site;
  print = λ u. u.host;
  path_unescape = λ s. some s;
  query_unescape = λ s. some s;
  query_escape = λ s. [];
  hostname = λ s. s;
  port = λ s. [];
}

abbrev pub open_guard : Guard
open_guard = record { allow_private = false; allow_hosts = []; deny_hosts = []; site = none }

abbrev pub handler : Handler
handler = record {
  lib = lib;
  addressing = plainly;
  parse_addr = λ s. none;
  guard = open_guard;
  force_secure = true;
  restores = λ u. true;
  extra_headers =
      λ u. (codes "X-Team", codes "a") ∷ (codes "X-Forwarded-For", codes "9.9.9.9") ∷ [];
  session_cookie = codes "wvsid";
}

abbrev pub inbound : Inbound
inbound = record {
  method = codes "GET";
  host = codes "gw.cn";
  path = codes "/p/https/x.cn/a";
  query = codes "u=1&v=2";
  uri = codes "/p/https/x.cn/a?u=1&v=2";
  tls = false;
  forwarded_proto = [];
  referer = [];
  credentials = [];
  real_user = none;
}

abbrev pub browser : Browser
browser = record { jar_key = codes "k"; client_ip = codes "1.2.3.4"; trail = λ u. none }

abbrev pub info : ReqInfo
info = record {
  target = site;
  secure = true;
  site = record { bypass = false; allowed = true };
  jar_key = codes "k";
  page = none;
  browser_host = codes "gw.cn";
  client_ip = codes "1.2.3.4";
  omit_cookies = false;
}
