-- ===== src/Client/Tests/Process.antt =====
-- A whole client process at concrete answers of the calls that it makes.
use inf01151_trabalho.Common.{
  ◌≡◌, ◌↔◌, refl, ◌+ℤ◌, pos, true, false, some, List, [], ◌∷◌, arith, done, ◌>>=◌,
}
use inf01151_trabalho.Client.Discovery.{
  SendAnswer, goes_on, ReceiveAnswer, timeout, answered, found, discover_server,
}
use inf01151_trabalho.Client.Discovery.Retries.{Found, discover_server_refines}
use inf01151_trabalho.Client.Main.{
  opened_socket, requested, started_reader, shut_down, joined_reader, destroyed_queue,
  closed_socket, ended, Calls, main,
}
use inf01151_trabalho.Client.Main.Ends.{idle, follow, Left, follow-main}
use inf01151_trabalho.Print.{text, skipped, uint, word, scan_line}
use inf01151_trabalho.Print.Clock.{Tm, IsTime, date_read}
use inf01151_trabalho.Client.Log.{log_request}
use inf01151_trabalho.Client.Log.Reading.{request_format, scan_line-log_request}

-- One time-out, and an answer from 101.
abbrev second_try : List (SendAnswer × ReceiveAnswer)
second_try = (goes_on, timeout) ∷ (goes_on, answered 101 true) ∷ []

discover_server_refines_example :
    (discover_server true true second_try ≡ found 101) ↔ Found 101 second_try
discover_server_refines_example = discover_server_refines 101 second_try

-- The sender thread cannot be created.
abbrev no_sender : Calls
no_sender = record {
  socket = true;
  enable_broadcast = true;
  send_timeout = true;
  receive_timeout = true;
  rounds = second_try;
  threads = record {
    create_reader = true;
    create_sender = false;
    reader_ends = true;
    sender_ends = false;
  };
}

-- The reader, in `fgets` or in `queue_push`, does not come to its end either.
abbrev stuck : Calls
stuck = record no_sender { threads = record (no_sender.threads) { reader_ends = false } }

main_run :
    main 2 no_sender
    ≡ opened_socket
      ∷ requested 101
      ∷ started_reader
      ∷ shut_down
      ∷ joined_reader
      ∷ destroyed_queue
      ∷ closed_socket
      ∷ ended (pos 0)
      ∷ []
unfolding main
main_run = refl

follow-main_example :
    Left (discover_server true true second_try) stuck.threads (follow (main 2 stuck) idle)
follow-main_example = follow-main 2 stuck

-- The fifth of March 2025, at seven.
abbrev morning : Tm
morning = record {
  tm_year = pos 125;
  tm_mon = pos 2;
  tm_mday = pos 5;
  tm_hour = pos 7;
  tm_min = pos 0;
  tm_sec = pos 0;
}

morning-IsTime : IsTime morning
unfolding ◌+ℤ◌
morning-IsTime = record {
  year = (omega arith, omega arith);
  month = (omega arith, omega arith);
  day = (omega arith, omega arith);
  hour = (omega arith, omega arith);
  minute = (omega arith, omega arith);
  second = (omega arith, omega arith);
  year_room = omega arith;
  month_room = omega arith;
}

scan_line-log_request_example :
    (log_request morning (text "10.0.0.9") (text "10.0.0.2") 1 30 70 >>= λ line.
    done (scan_line request_format line))
    ≡ done (
        some (
          date_read morning (
            skipped
            ∷ word (text "10.0.0.9")
            ∷ skipped
            ∷ uint 1
            ∷ skipped
            ∷ word (text "10.0.0.2")
            ∷ skipped
            ∷ uint 30
            ∷ skipped
            ∷ uint 70
            ∷ skipped
            ∷ [])))
scan_line-log_request_example =
    scan_line-log_request (text "10.0.0.9") (text "10.0.0.2") 1 30 70 morning-IsTime
      (refl, (refl, (refl, (refl, (refl, (refl, (refl, (refl, tt))))))))
      (refl, (refl, (refl, (refl, (refl, (refl, (refl, (refl, tt)))))))) (omega arith) (omega arith)
      (omega arith)
