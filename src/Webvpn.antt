-- ===== src/Webvpn.antt =====
-- internal/webvpn: the gateway's side of the browser and of the sites.
pub mod Url
pub mod Codec
pub mod Cookie
pub mod Guard
pub mod Trust
pub mod Jars
pub mod Pages
pub mod Proxy
pub mod Restore
pub mod Rewrite
