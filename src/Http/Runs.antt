-- ===== src/Http/Runs.antt =====
-- post of the OS at a concrete answer.
use iotex_arduino.Base.{◌≡◌, refl, arith, [], ◌∷◌, true, false, none, codes}
use iotex_arduino.Http.{Curl, os_post, memcmp_equal}
use iotex_arduino.Http.Status.{os_post_lem}

-- The answer of a node with its status.
abbrev a_node : Curl
a_node = record {
  easy_init = true;
  perform_ok = λ request body. true;
  header_lines = λ request body. codes "HTTP/1.1 200 OK" ∷ codes "grpc-status:0" ∷ [];
  received = λ request body. codes "{}";
  fetched = λ request. codes "{}";
}

os_post_lem_example :
    os_post a_node (record { code = 5; message = [] }) (codes "io:80/GetAccount") (codes "{}") []
    ≡ none
unfolding memcmp_equal
os_post_lem_example =
    os_post_lem a_node (record { code = 5; message = [] }) (codes "io:80/GetAccount") (codes "{}")
      []
      (
        record {
          is_status = false;
          is_message = false;
          status_lem = refl;
          message_lem = refl;
          text_lem = (omega arith, (omega arith, (omega arith, tt)));
          length_lem = tt;
        },
        (
          record {
            is_status = true;
            is_message = false;
            status_lem = refl;
            message_lem = refl;
            text_lem = (omega arith, tt);
            length_lem = omega arith;
          },
          tt,
        ),
      )
