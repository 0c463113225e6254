-- ===== src/Cloudflare/Examples.antt =====
-- Calls over a concrete network.
use rdoc_cam_hub.Common.{Text, bytes, Option, some, [], refl}
use rdoc_cam_hub.Samples.{result, net}
use rdoc_cam_hub.Store.{type_a}
use rdoc_cam_hub.Cloudflare.{Client, do_call, record_url, record_request, request_of}
use rdoc_cam_hub.Cloudflare.Reply.{Body, IsDone, do_call-IsDone}

abbrev client : Client
client = record { api_token = bytes "t"; zone_id = bytes "z"; base_url = bytes "https://api" }

do_call-IsDone_example :
    (sent : Option Text) × Body net client
      (some (record_request (bytes "cam.example") type_a (bytes "192.0.2.1")))
      sent
    × IsDone net client []
        (request_of net client (bytes "PUT") (record_url net client (bytes "r1")) sent)
        result
unfolding do_call
do_call-IsDone_example =
    do_call-IsDone net client [] (bytes "PUT") (record_url net client (bytes "r1"))
      (some (record_request (bytes "cam.example") type_a (bytes "192.0.2.1"))) result refl
