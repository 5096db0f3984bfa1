-- ===== src/Lib.antt =====
-- wvpn is a gateway that fetches http(s) sites for a signed-in browser and rewrites what comes back so
-- that the browser stays inside it. The development models its decision-making code.
--
-- Text, Net, Dict: Go's packages strings, net and net/netip as far as the program uses them, and maps
--   as association lists. A string is the list of its bytes. Case folding and white space are those of
--   ASCII, so theorems that mention trimming or case speak of texts whose other bytes count as plain
--   bytes.
-- Store: internal/store. Store/Glob is MatchPattern and globMatch; Store/Sites is the site list, its
--   parser and the verdicts; Store/Headers is headers.go, from the submitted rules to HeadersFor.
--   Store/Config is the configuration: normalizeConfig and clone, Store/Config/Validate is Validate, and
--   Store/Config/Persist is the Store itself, with LoadStore, Set and save.
-- Auth: internal/auth. Auth/Model is the state of Manager and what a request carries; Auth/Limit is
--   rateLimited; Auth/Sessions is SessionFor, newSession, logout, renewal, revocation and the janitor;
--   Auth/SignIn is handleRequestCode and handleVerify; Auth/Setup is guardSetup of setup.go, and
--   Auth/Setup/Form is handleSetup; Auth/Config is viewOf and merge, and Auth/Config/Console the
--   handlers over them; Auth/Gate is Require and safeNext; Auth/Mailer is mailer.go, with a conversation as the list of the steps taken.
-- Webvpn: internal/webvpn. Webvpn/Guard is guard.go; Webvpn/Cookie is cookie.go; Webvpn/Trust is the
--   trustStore, serveTrust and safeReturn of tls.go; Webvpn/Jars is jar.go; Webvpn/Pages is pages.go;
--   Webvpn/Url and Webvpn/Codec are codec.go, with PlainCodec, WRDCodec and HostCodec as children that
--   fill the record Codec; Webvpn/Restore is restore.go; Webvpn/Proxy is proxy.go, from ServeHTTP to the
--   request that goes to the site (Webvpn/Proxy/Request) and the response (Webvpn/Proxy/Response);
--   Webvpn/Rewrite is rewrite.go, with Srcset and the loop over a document's tokens as children.
-- Cmd: cmd/webvpn/main.go, where the store becomes the guard's site policy.
--
-- The guard runs twice for a request: CheckTarget on the host name before anything is resolved, and
-- CheckDialAddr on the address that the resolver returned, with the first outcome carried along.
-- Cmd.reach composes the two as Handler.serveProxy and Guard.DialControl do. The policy is one snapshot
-- for both phases; an edit between them is not modelled.
--
-- A handler is a function from the state to the state and a reply. Handlers that take the lock more
-- than once are one step each; interleavings are sequences of such steps. Time is a number of
-- nanoseconds passed to each call. What the random source, the store and the standard library answer
-- are arguments, so that what is proved holds whatever they answer. Mail is an output. The HTTP
-- cookie that a handler writes is left out.
--
-- globMatch's loop takes fuel, Store.Glob.rounds, which is enough for every pattern and text. Its
-- indices are modelled by the suffixes that they start. A cookie jar is known by its number.
--
-- A configuration file is a text, and writing it is one step that the file system may refuse. A parsed
-- URL holds its parts as they are written. Handler.decode tries the plain codec first and then the one
-- in force, and both ServeHTTP and Handler.rewriteRequest go by it. A request's header is a function of
-- canonical names, with one value each. unwrapTarget's outer loop runs four times at most, as in the
-- source, so it needs no other fuel.
--
-- Errors are values named for what they say; the texts shown to users are left out. netip.ParseAddr,
-- netip.ParsePrefix, net/mail, net/url, AES, hex, gzip and the canonical form of a header's name are
-- arguments, and so is encoding/json on a Config. An IPv6 address carries its zone.
--
-- srcset's loop takes one unit of fuel for each byte and one more. The tokens of a document, what the
-- regular expressions of scripts and style sheets match and the public suffix list are arguments.
--
-- Not modelled: HTTP transport, TLS handshakes, html tokenizing, the matching of those expressions,
-- templates, JSON beyond that, the file system beyond that and logging.
pub mod Base
pub mod Text
pub mod Net
pub mod Dict
pub mod Store
pub mod Webvpn
pub mod Cmd
pub mod Auth
