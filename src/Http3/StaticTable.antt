-- ===== src/Http3/StaticTable.antt =====
-- src/http3/Http3Protocol.cpp: `QPACK_STATIC_TABLE`, as pairs of a name and a value.
use jacktrip.Base.{ℕ, List, [], ◌∷◌, ◌++◌, codes}

-- The entries 0 to 48.
pub static_table_low : List (List ℕ × List ℕ)
static_table_low =
    (codes ":authority", codes "")
    ∷ (codes ":path", codes "/")
    ∷ (codes "age", codes "0")
    ∷ (codes "content-disposition", codes "")
    ∷ (codes "content-length", codes "0")
    ∷ (codes "cookie", codes "")
    ∷ (codes "date", codes "")
    ∷ (codes "etag", codes "")
    ∷ (codes "if-modified-since", codes "")
    ∷ (codes "if-none-match", codes "")
    ∷ (codes "last-modified", codes "")
    ∷ (codes "link", codes "")
    ∷ (codes "location", codes "")
    ∷ (codes "referer", codes "")
    ∷ (codes "set-cookie", codes "")
    ∷ (codes ":method", codes "CONNECT")
    ∷ (codes ":method", codes "DELETE")
    ∷ (codes ":method", codes "GET")
    ∷ (codes ":method", codes "HEAD")
    ∷ (codes ":method", codes "OPTIONS")
    ∷ (codes ":method", codes "POST")
    ∷ (codes ":method", codes "PUT")
    ∷ (codes ":scheme", codes "http")
    ∷ (codes ":scheme", codes "https")
    ∷ (codes ":status", codes "103")
    ∷ (codes ":status", codes "200")
    ∷ (codes ":status", codes "304")
    ∷ (codes ":status", codes "404")
    ∷ (codes ":status", codes "503")
    ∷ (codes "accept", codes "*/*")
    ∷ (codes "accept", codes "application/dns-message")
    ∷ (codes "accept-encoding", codes "gzip, deflate, br")
    ∷ (codes "accept-ranges", codes "bytes")
    ∷ (codes "access-control-allow-headers", codes "cache-control")
    ∷ (codes "access-control-allow-headers", codes "content-type")
    ∷ (codes "access-control-allow-origin", codes "*")
    ∷ (codes "cache-control", codes "max-age=0")
    ∷ (codes "cache-control", codes "max-age=2592000")
    ∷ (codes "cache-control", codes "max-age=604800")
    ∷ (codes "cache-control", codes "no-cache")
    ∷ (codes "cache-control", codes "no-store")
    ∷ (codes "cache-control", codes "public, max-age=31536000")
    ∷ (codes "content-encoding", codes "br")
    ∷ (codes "content-encoding", codes "gzip")
    ∷ (codes "content-type", codes "application/dns-message")
    ∷ (codes "content-type", codes "application/javascript")
    ∷ (codes "content-type", codes "application/json")
    ∷ (codes "content-type", codes "application/x-www-form-urlencoded")
    ∷ (codes "content-type", codes "image/gif")
    ∷ []

-- The entries 49 to 98.
pub static_table_high : List (List ℕ × List ℕ)
static_table_high =
    (codes "content-type", codes "image/jpeg")
    ∷ (codes "content-type", codes "image/png")
    ∷ (codes "content-type", codes "text/css")
    ∷ (codes "content-type", codes "text/html; charset=utf-8")
    ∷ (codes "content-type", codes "text/plain")
    ∷ (codes "content-type", codes "text/plain;charset=utf-8")
    ∷ (codes "range", codes "bytes=0-")
    ∷ (codes "strict-transport-security", codes "max-age=31536000")
    ∷ (codes "strict-transport-security", codes "max-age=31536000; includesubdomains")
    ∷ (codes "strict-transport-security", codes "max-age=31536000; includesubdomains; preload")
    ∷ (codes "vary", codes "accept-encoding")
    ∷ (codes "vary", codes "origin")
    ∷ (codes "x-content-type-options", codes "nosniff")
    ∷ (codes "x-xss-protection", codes "1; mode=block")
    ∷ (codes ":status", codes "100")
    ∷ (codes ":status", codes "204")
    ∷ (codes ":status", codes "206")
    ∷ (codes ":status", codes "302")
    ∷ (codes ":status", codes "400")
    ∷ (codes ":status", codes "403")
    ∷ (codes ":status", codes "421")
    ∷ (codes ":status", codes "425")
    ∷ (codes ":status", codes "500")
    ∷ (codes "accept-language", codes "")
    ∷ (codes "access-control-allow-credentials", codes "FALSE")
    ∷ (codes "access-control-allow-credentials", codes "TRUE")
    ∷ (codes "access-control-allow-headers", codes "*")
    ∷ (codes "access-control-allow-methods", codes "get")
    ∷ (codes "access-control-allow-methods", codes "get, post, options")
    ∷ (codes "access-control-allow-methods", codes "options")
    ∷ (codes "access-control-expose-headers", codes "content-length")
    ∷ (codes "access-control-request-headers", codes "content-type")
    ∷ (codes "access-control-request-method", codes "get")
    ∷ (codes "access-control-request-method", codes "post")
    ∷ (codes "alt-svc", codes "clear")
    ∷ (codes "authorization", codes "")
    ∷ (
      codes "content-security-policy",
      codes "script-src 'none'; object-src 'none'; base-uri 'none'",
    )
    ∷ (codes "early-data", codes "1")
    ∷ (codes "expect-ct", codes "")
    ∷ (codes "forwarded", codes "")
    ∷ (codes "if-range", codes "")
    ∷ (codes "origin", codes "")
    ∷ (codes "purpose", codes "prefetch")
    ∷ (codes "server", codes "")
    ∷ (codes "timing-allow-origin", codes "*")
    ∷ (codes "upgrade-insecure-requests", codes "1")
    ∷ (codes "user-agent", codes "")
    ∷ (codes "x-forwarded-for", codes "")
    ∷ (codes "x-frame-options", codes "deny")
    ∷ (codes "x-frame-options", codes "sameorigin")
    ∷ []

unfoldable pub static_table : List (List ℕ × List ℕ)
unfolding static_table_low static_table_high
static_table = static_table_low ++ static_table_high
