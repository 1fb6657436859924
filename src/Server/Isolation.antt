-- ===== src/Server/Isolation.antt =====
-- What a request gets of the one that used its pooled context and writer before.
use elton.Common.{ℕ, ◌≡◌, refl, ap, ◌∙◌, some, none, if◌then◌else◌, List, Text}
use elton.Http.{Writer}
use elton.RouteParams
use elton.Context.{Context, Request, Err, HesError}
use elton.Context.Laws.{reset_forgets}
use elton.Chain.{returned, reset_cursor}
use elton.EdgeWriter.{EdgeWriter, acquire, mark_handled}
use elton.Server.{Elton, Route, Pooled, prepare, serve_route, emit, id_of}
use elton.Server.Serve.{
  MuxAnswer, matched, own, serve_http, serve_answer, response_of, run_pre, is_running, unavailable,
}

acquire-forgets : (a b : EdgeWriter) (w : Writer) → acquire a w ≡ acquire b w
unfolding acquire
acquire-forgets a b w = refl

module _ (hes_text : HesError → Text) (text_of : Err → Text)
    (mux : List Route → Request → MuxAnswer) where
  prepare-forgets :
      (e : Elton) (r : Route) (path_value : Text → Text) (req : Request) (w : Writer)
      (c d : Context)
      → prepare hes_text text_of e r path_value req w c
        ≡ prepare hes_text text_of e r path_value req w d
  unfolding prepare
  prepare-forgets e r path_value req w c d =
      ap
        (λ z.
          let p = emit e.before_listeners (record z {
            request = req;
            response = w;
            id = id_of hes_text text_of e.generate_id req;
            params = RouteParams.fill r.param_names path_value z.params;
          }) in
          record p { route = r.path })
        (reset_forgets c d)

  serve_route-forgets :
      (fuel : ℕ) (e : Elton) (r : Route) (path_value : Text → Text) (req : Request) (w : Writer)
      (c d : Pooled)
      → serve_route hes_text text_of fuel e r path_value req w c
        ≡ serve_route hes_text text_of fuel e r path_value req w d
  unfolding serve_route reset_cursor
  serve_route-forgets fuel e r path_value req w c d =
      rw (serve_route, prepare-forgets e r path_value req w c.context d.context) refl

  serve_answer-forgets :
      (fuel : ℕ) (e : Elton) (req : Request) (w : Writer) (ew : EdgeWriter) (c d : Pooled)
      (a : MuxAnswer)
      → serve_answer hes_text text_of mux fuel e req w ew c a
        ≡ serve_answer hes_text text_of mux fuel e req w ew d a
  serve_answer-forgets fuel e req w ew c d (matched r path_value) =
      ap response_of (serve_route-forgets fuel e r path_value req (mark_handled ew).inner c d)
  serve_answer-forgets fuel e req w ew c d (own ops) = refl

  -- Nothing of an earlier request shows in the answer to a later one, while tracing is off: the
  -- response and the outcome are the same whatever state the edge writer and the context are in that
  -- the pools hand out, with the cached query, the parameters, and what an earlier chain and its
  -- composed handlers made of `Next`.
  pub serve_http-isolated :
      (fuel : ℕ) (e : Elton) (req : Request) (w : Writer) (spare spare' : EdgeWriter)
      (pooled pooled' : Pooled)
      → serve_http hes_text text_of mux fuel e req w spare pooled
        ≡ serve_http hes_text text_of mux fuel e req w spare' pooled'
  unfolding serve_http
  serve_http-isolated fuel e req w spare spare' pooled pooled' =
      let req' = run_pre e.pre_middlewares req in
      let a = mux e.routes req' in
      ap (λ r. if is_running e.status then r else some (unavailable e.status w, returned none))
        (ap (λ ew. serve_answer hes_text text_of mux fuel e req' w ew pooled a)
            (acquire-forgets spare spare' w)
          ∙ serve_answer-forgets fuel e req' w (acquire spare' w) pooled pooled' a)
