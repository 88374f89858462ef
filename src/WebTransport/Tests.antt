-- ===== src/WebTransport/Tests.antt =====
-- Runs of src/webtransport/WebTransportSession.cpp at concrete inputs.
use jacktrip.Base.{[], arith, if◌then◌else◌, refl, some, ◌==◌, ◌≡◌}
use jacktrip.Http3.Outcome.{failed, done}
use jacktrip.Http3.Frame.{parse_http3_frame}
use jacktrip.Http3.Headers.{decode_qpack_headers}
use jacktrip.WebTransport.Response.{qpack_payload, build_response_frame}
use jacktrip.WebTransport.Response.RoundTrip.{response_headers, build_response_frame-decode}

build_response_frame-decode_example :
    (parse_http3_frame (build_response_frame 404) ≡ some (qpack_payload 404))
    × (decode_qpack_headers (λ s. s) (qpack_payload 404) []
        ≡ (if 404 == 100 then failed else done (response_headers 404)))
build_response_frame-decode_example =
    build_response_frame-decode (λ s. s) 404 (λ bytes ascii. refl) (omega arith)
