-- ===== src/GotAudit/ExpectedDups.antt =====
-- scripts/got_audit.py: the symbols that several libraries may provide.
use gef_extras.Common.{List, [], ◌∷◌, Chars, codes}

-- `_expected_dups_`
abbrev pub expected_dups : List Chars
expected_dups =
    codes "__cxa_finalize"
    ∷ codes "copysign"
    ∷ codes "copysignf"
    ∷ codes "copysignl"
    ∷ codes "__finite"
    ∷ codes "finite"
    ∷ codes "__finitef"
    ∷ codes "finitef"
    ∷ codes "__finitel"
    ∷ codes "finitel"
    ∷ codes "frexp"
    ∷ codes "frexpf"
    ∷ codes "frexpl"
    ∷ codes "ldexp"
    ∷ codes "ldexpf"
    ∷ codes "ldexpl"
    ∷ codes "modf"
    ∷ codes "modff"
    ∷ codes "modfl"
    ∷ codes "scalbn"
    ∷ codes "scalbnf"
    ∷ codes "scalbnl"
    ∷ codes "__signbit"
    ∷ codes "__signbitf"
    ∷ codes "__signbitl"
    ∷ codes "fgetxattr"
    ∷ codes "flistxattr"
    ∷ codes "fremovexattr"
    ∷ codes "fsetxattr"
    ∷ codes "getxattr"
    ∷ codes "lgetxattr"
    ∷ codes "listxattr"
    ∷ codes "llistxattr"
    ∷ codes "lremovexattr"
    ∷ codes "lsetxattr"
    ∷ codes "removexattr"
    ∷ codes "setxattr"
    ∷ codes "authdes_create"
    ∷ codes "authdes_pk_create"
    ∷ codes "_authenticate"
    ∷ codes "authnone_create"
    ∷ codes "authunix_create"
    ∷ codes "authunix_create_default"
    ∷ codes "bindresvport"
    ∷ codes "callrpc"
    ∷ codes "clnt_broadcast"
    ∷ codes "clnt_create"
    ∷ codes "clnt_pcreateerror"
    ∷ codes "clnt_perrno"
    ∷ codes "clnt_perror"
    ∷ codes "clntraw_create"
    ∷ codes "clnt_spcreateerror"
    ∷ codes "clnt_sperrno"
    ∷ codes "clnt_sperror"
    ∷ codes "clnttcp_create"
    ∷ codes "clntudp_bufcreate"
    ∷ codes "clntudp_create"
    ∷ codes "clntunix_create"
    ∷ codes "get_myaddress"
    ∷ codes "getnetname"
    ∷ codes "getpublickey"
    ∷ codes "getrpcport"
    ∷ codes "host2netname"
    ∷ codes "key_decryptsession"
    ∷ codes "key_decryptsession_pk"
    ∷ codes "key_encryptsession"
    ∷ codes "key_encryptsession_pk"
    ∷ codes "key_gendes"
    ∷ codes "key_get_conv"
    ∷ codes "key_secretkey_is_set"
    ∷ codes "key_setnet"
    ∷ codes "key_setsecret"
    ∷ codes "__libc_clntudp_bufcreate"
    ∷ codes "netname2host"
    ∷ codes "netname2user"
    ∷ codes "pmap_getmaps"
    ∷ codes "pmap_getport"
    ∷ codes "pmap_rmtcall"
    ∷ codes "pmap_set"
    ∷ codes "pmap_unset"
    ∷ codes "registerrpc"
    ∷ codes "_rpc_dtablesize"
    ∷ codes "rtime"
    ∷ codes "_seterr_reply"
    ∷ codes "svcerr_auth"
    ∷ codes "svcerr_decode"
    ∷ codes "svcerr_noproc"
    ∷ codes "svcerr_noprog"
    ∷ codes "svcerr_progvers"
    ∷ codes "svcerr_systemerr"
    ∷ codes "svcerr_weakauth"
    ∷ codes "svc_exit"
    ∷ codes "svcfd_create"
    ∷ codes "svc_getreq"
    ∷ codes "svc_getreq_common"
    ∷ codes "svc_getreq_poll"
    ∷ codes "svc_getreqset"
    ∷ codes "svcraw_create"
    ∷ codes "svc_register"
    ∷ codes "svc_run"
    ∷ codes "svc_sendreply"
    ∷ codes "svctcp_create"
    ∷ codes "svcudp_bufcreate"
    ∷ codes "svcudp_create"
    ∷ codes "svcunix_create"
    ∷ codes "svcunixfd_create"
    ∷ codes "svc_unregister"
    ∷ codes "user2netname"
    ∷ codes "xdr_accepted_reply"
    ∷ codes "xdr_array"
    ∷ codes "xdr_authunix_parms"
    ∷ codes "xdr_bool"
    ∷ codes "xdr_bytes"
    ∷ codes "xdr_callhdr"
    ∷ codes "xdr_callmsg"
    ∷ codes "xdr_char"
    ∷ codes "xdr_cryptkeyarg"
    ∷ codes "xdr_cryptkeyarg2"
    ∷ codes "xdr_cryptkeyres"
    ∷ codes "xdr_des_block"
    ∷ codes "xdr_double"
    ∷ codes "xdr_enum"
    ∷ codes "xdr_float"
    ∷ codes "xdr_free"
    ∷ codes "xdr_getcredres"
    ∷ codes "xdr_hyper"
    ∷ codes "xdr_int"
    ∷ codes "xdr_int16_t"
    ∷ codes "xdr_int32_t"
    ∷ codes "xdr_int64_t"
    ∷ codes "xdr_int8_t"
    ∷ codes "xdr_keybuf"
    ∷ codes "xdr_key_netstarg"
    ∷ codes "xdr_key_netstres"
    ∷ codes "xdr_keystatus"
    ∷ codes "xdr_long"
    ∷ codes "xdr_longlong_t"
    ∷ codes "xdrmem_create"
    ∷ codes "xdr_netnamestr"
    ∷ codes "xdr_netobj"
    ∷ codes "xdr_opaque"
    ∷ codes "xdr_opaque_auth"
    ∷ codes "xdr_pmap"
    ∷ codes "xdr_pmaplist"
    ∷ codes "xdr_pointer"
    ∷ codes "xdr_quad_t"
    ∷ codes "xdrrec_create"
    ∷ codes "xdrrec_endofrecord"
    ∷ codes "xdrrec_eof"
    ∷ codes "xdrrec_skiprecord"
    ∷ codes "xdr_reference"
    ∷ codes "xdr_rejected_reply"
    ∷ codes "xdr_replymsg"
    ∷ codes "xdr_rmtcall_args"
    ∷ codes "xdr_rmtcallres"
    ∷ codes "xdr_short"
    ∷ codes "xdr_sizeof"
    ∷ codes "xdrstdio_create"
    ∷ codes "xdr_string"
    ∷ codes "xdr_u_char"
    ∷ codes "xdr_u_hyper"
    ∷ codes "xdr_u_int"
    ∷ codes "xdr_uint16_t"
    ∷ codes "xdr_uint32_t"
    ∷ codes "xdr_uint64_t"
    ∷ codes "xdr_uint8_t"
    ∷ codes "xdr_u_long"
    ∷ codes "xdr_u_longlong_t"
    ∷ codes "xdr_union"
    ∷ codes "xdr_unixcred"
    ∷ codes "xdr_u_quad_t"
    ∷ codes "xdr_u_short"
    ∷ codes "xdr_vector"
    ∷ codes "xdr_void"
    ∷ codes "xdr_wrapstring"
    ∷ codes "xprt_register"
    ∷ codes "xprt_unregister"
    ∷ codes "_plug_buf_alloc"
    ∷ codes "_plug_challenge_prompt"
    ∷ codes "_plug_decode"
    ∷ codes "_plug_decode_free"
    ∷ codes "_plug_decode_init"
    ∷ codes "_plug_find_prompt"
    ∷ codes "_plug_free_secret"
    ∷ codes "_plug_free_string"
    ∷ codes "_plug_get_error_message"
    ∷ codes "_plug_get_password"
    ∷ codes "_plug_get_realm"
    ∷ codes "_plug_get_simple"
    ∷ codes "_plug_iovec_to_buf"
    ∷ codes "_plug_ipfromstring"
    ∷ codes "_plug_make_fulluser"
    ∷ codes "_plug_make_prompts"
    ∷ codes "_plug_parseuser"
    ∷ codes "_plug_snprintf_os_info"
    ∷ codes "_plug_strdup"
    ∷ codes "__b64_ntop"
    ∷ codes "__b64_pton"
    ∷ []
