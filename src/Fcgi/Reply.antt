-- ===== src/Fcgi/Reply.antt =====
-- The reply as the front-end reads it (`Reply`, `Http` and `reply_bytes` of onboard/src/fcgi.rs).
-- A `String` is its UTF-8 bytes.
pub mod Framing
use kyriakon_infra.Base.{
  ℕ, zero, suc, ◌+◌, ◌/◌, ◌%◌, List, [], ◌∷◌, ◌++◌, map, if◌then◌else◌, ◌==◌, ltb, length, take,
  drop, String,
}
use kyriakon_infra.Base.Chars.{codes}
use kyriakon_infra.Fcgi.Wire.{version, stdout, end_request, max_content}

pub record Http : Type 0 where
  pub status : ℕ
  pub headers : List (List ℕ × List ℕ)
  pub body : List ℕ

pub data Reply : Type 0 where
  http : Http → Reply
  gemini : ℕ → List ℕ → List ℕ → Reply

abbrev content_type : List ℕ × List ℕ
content_type = (codes "Content-Type", codes "text/html; charset=utf-8")

abbrev no_store : List ℕ × List ℕ
no_store = (codes "Cache-Control", codes "no-store")

abbrev no_referrer : List ℕ × List ℕ
no_referrer = (codes "Referrer-Policy", codes "no-referrer")

-- `Http::redirect`
pub redirect : List ℕ → Http
redirect location = record {
  status = 303;
  headers = content_type ∷ no_store ∷ no_referrer ∷ (codes "Location", location) ∷ [];
  body = [];
}

pub with_header : Http → List ℕ → List ℕ → Http
with_header h name value = record h { headers = h.headers ++ (name, value) ∷ [] }

-- `Reply::html`
pub html : ℕ → List ℕ → Reply
html status body = http (record { status = status; headers = content_type ∷ []; body = body })

-- `Reply::capability`
pub capability : ℕ → List ℕ → Reply
capability status body =
    http (record {
      status = status;
      headers = content_type ∷ no_store ∷ no_referrer ∷ [];
      body = body;
    })

pub status_code : Reply → ℕ
status_code (http h) = h.status
status_code (gemini status meta body) = status

pub reason : ℕ → List ℕ
reason status =
    if status == 200
    then codes "OK"
    else if status == 400
    then codes "Bad Request"
    else if status == 403
    then codes "Forbidden"
    else if status == 404
    then codes "Not Found"
    else if status == 405
    then codes "Method Not Allowed"
    else if status == 303
    then codes "See Other"
    else if status == 413
    then codes "Payload Too Large"
    else if status == 415
    then codes "Unsupported Media Type"
    else if status == 422
    then codes "Unprocessable Content"
    else if status == 429
    then codes "Too Many Requests"
    else if status == 500
    then codes "Internal Server Error"
    else []

-- The decimal digits of a number, on fuel: a number below 10 ^ fuel is written whole.
digits : ℕ → ℕ → List ℕ
digits zero n = []
digits (suc fuel) n =
    let front = digits fuel (n / 10) in
    if ltb n 10 then (n + b'0') ∷ [] else front ++ (n % 10 + b'0') ∷ []

-- A status is a u16 or a u8, so five digits hold it.
pub decimal : ℕ → List ℕ
unfolding digits
decimal n = digits 5 n

abbrev crlf : List ℕ
crlf = 13 ∷ 10 ∷ []

header_lines : List (List ℕ × List ℕ) → List ℕ
header_lines [] = []
header_lines ((name, value) ∷ headers) =
    name ++ (codes ": " ++ (value ++ (crlf ++ header_lines headers)))

pub head : Reply → List ℕ
unfolding header_lines
head (http h) =
    codes "Status: "
    ++ (decimal h.status
        ++ (codes " "
            ++ (reason h.status ++ (crlf ++ (header_lines h.headers ++ (crlf ++ h.body))))))
head (gemini status meta body) = decimal status ++ (codes " " ++ (meta ++ (crlf ++ body)))

-- `push_record`: the length is cast to a u16, and there is no padding.
pub push_record : List ℕ → ℕ → ℕ → List ℕ → List ℕ
push_record out kind id content =
    let len = length content % 65536 in
    out ++ (version ∷ kind ∷ id / 256 ∷ id % 256 ∷ len / 256 ∷ len % 256 ∷ 0 ∷ 0 ∷ content)

-- `slice::chunks`, on fuel: a chunk takes one byte or more.
pub chunks : ℕ → ℕ → List ℕ → List (List ℕ)
chunks fuel size [] = []
chunks zero size (b ∷ bs) = []
chunks (suc fuel) size (b ∷ bs) = take size (b ∷ bs) ∷ chunks fuel size (drop size (b ∷ bs))

pub push_chunks : List ℕ → ℕ → List (List ℕ) → List ℕ
push_chunks out id [] = out
push_chunks out id (c ∷ cs) = push_chunks (push_record out stdout id c) id cs

pub reply_bytes : Reply → ℕ → List ℕ
unfolding push_chunks push_record
reply_bytes reply id =
    let content = head reply in
    push_record (push_chunks [] id (chunks (length content) max_content content)) end_request id
      (0 ∷ 0 ∷ 0 ∷ 0 ∷ 0 ∷ 0 ∷ 0 ∷ 0 ∷ [])
