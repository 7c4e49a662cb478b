-- ===== src/Request.antt =====
-- src/core/request.h, src/core/request.c, src/core/response.h and src/core/response.c: what a client sends
-- to the daemon, and what it gets back.
use bpfilter.Prelude.{ℕ, Bool, not, List, [], Option, none, some, ◌==◌}
use bpfilter.Result.{Result, ok, ◌>>=◌, ◌>>◌, assert}
use bpfilter.Bytes.{load}

-- `enum bf_front`
abbrev pub front_ipt : ℕ
front_ipt = 0

abbrev pub front_nft : ℕ
front_nft = 1

abbrev pub front_cli : ℕ
front_cli = 2

abbrev pub front_max : ℕ
front_max = 3

-- `enum bf_request_cmd`
abbrev pub ruleset_flush : ℕ
ruleset_flush = 0

abbrev pub rules_set : ℕ
rules_set = 1

abbrev pub counters_set : ℕ
counters_set = 3

abbrev pub custom : ℕ
custom = 5

-- `struct bf_request`; `data_len` is the length of `data`.
pub record Request : Type 0 where
  pub front : ℕ
  pub cmd : ℕ
  pub ipt_cmd : ℕ
  pub data_bytes : List ℕ

-- `struct bf_response`: BF_RES_SUCCESS with its data, or BF_RES_FAILURE with an error, which is kept
-- without its sign.
pub data Response : Type 0 where
  success : List ℕ → Response
  failure : ℕ → Response

-- `!(!!data ^ !!data_len)`
abbrev agree : Option (List ℕ) → ℕ → Bool
agree none len = len == 0
agree (some bytes) len = not (len == 0)

abbrev copied : Option (List ℕ) → ℕ → Result (List ℕ)
copied none len = ok []
copied (some bytes) len = load bytes 0 len

-- bf_request_new; the other members are the zeros of `calloc`.
unfoldable pub request_new : Option (List ℕ) → ℕ → Result Request
request_new bytes len = do
  assert (agree bytes len)
  copy ← copied bytes len
  ok (record { front = 0; cmd = 0; ipt_cmd = 0; data_bytes = copy })

unfoldable pub response_new_success : Option (List ℕ) → ℕ → Result Response
response_new_success bytes len = do
  assert (agree bytes len)
  copy ← copied bytes len
  ok (success copy)

unfoldable pub response_new_failure : ℕ → Result Response
response_new_failure error = ok (failure error)
