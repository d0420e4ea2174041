-- ===== src/SyscallArgs/Tables/X8664/From202.antt =====
-- scripts/syscall_args/syscall-tables/X86_64.py: the calls from 0xca to 0x10e.
use gef_extras.Common.{[], ◌∷◌}
use gef_extras.SyscallArgs.{Table}
use gef_extras.SyscallArgs.Tables.{row, param}

abbrev pub from_202 : Table
from_202 =
    row 0xca "futex" (
      param "$rdi" "u32 *uaddr"
      ∷ param "$rsi" "int op"
      ∷ param "$rdx" "u32 val"
      ∷ param "$r10" "struct timespec *utime"
      ∷ param "$r8" "u32 *uaddr2"
      ∷ param "$r9" "u32 val3"
      ∷ [])
    ∷ row 0xcb "sched_setaffinity" (
        param "$rdi" "pid_t pid"
        ∷ param "$rsi" "unsigned int len"
        ∷ param "$rdx" "unsigned long *user_mask_ptr"
        ∷ [])
    ∷ row 0xcc "sched_getaffinity" (
        param "$rdi" "pid_t pid"
        ∷ param "$rsi" "unsigned int len"
        ∷ param "$rdx" "unsigned long *user_mask_ptr"
        ∷ [])
    ∷ row 0xce "io_setup"
        (param "$rdi" "unsigned nr_events" ∷ param "$rsi" "aio_context_t *ctxp" ∷ [])
    ∷ row 0xcf "io_destroy" (param "$rdi" "aio_context_t ctx" ∷ [])
    ∷ row 0xd0 "io_getevents" (
        param "$rdi" "aio_context_t ctx_id"
        ∷ param "$rsi" "long min_nr"
        ∷ param "$rdx" "long nr"
        ∷ param "$r10" "struct io_event *events"
        ∷ param "$r8" "struct timespec *timeout"
        ∷ [])
    ∷ row 0xd1 "io_submit" (
        param "$rdi" "aio_context_t ctx_id"
        ∷ param "$rsi" "long nr"
        ∷ param "$rdx" "struct iocb * *iocbpp"
        ∷ [])
    ∷ row 0xd2 "io_cancel" (
        param "$rdi" "aio_context_t ctx_id"
        ∷ param "$rsi" "struct iocb *iocb"
        ∷ param "$rdx" "struct io_event *result"
        ∷ [])
    ∷ row 0xd4 "lookup_dcookie" (param "$rdi" "char *buf size_t len" ∷ [])
    ∷ row 0xd5 "epoll_create" (param "$rdi" "int size" ∷ [])
    ∷ row 0xd8 "remap_file_pages" (
        param "$rdi" "unsigned long start"
        ∷ param "$rsi" "unsigned long size"
        ∷ param "$rdx" "unsigned long prot"
        ∷ param "$r10" "unsigned long pgoff"
        ∷ param "$r8" "unsigned long flags"
        ∷ [])
    ∷ row 0xd9 "getdents64" (
        param "$rdi" "unsigned int fd"
        ∷ param "$rsi" "struct linux_dirent64 *dirent"
        ∷ param "$rdx" "unsigned int count"
        ∷ [])
    ∷ row 0xda "set_tid_address" (param "$rdi" "int *tidptr" ∷ [])
    ∷ row 0xdb "restart_syscall" ([])
    ∷ row 0xdc "semtimedop" (
        param "$rdi" "int semid"
        ∷ param "$rsi" "struct sembuf *tsops"
        ∷ param "$rdx" "unsigned nsops"
        ∷ param "$r10" "const struct timespec *timeout"
        ∷ [])
    ∷ row 0xdd "fadvise64"
        (param "$rdi" "loff_t offset size_t len" ∷ param "$rsi" "int advice" ∷ [])
    ∷ row 0xde "timer_create" (
        param "$rdi" "const clockid_t which_clock"
        ∷ param "$rsi" "struct sigevent *timer_event_spec"
        ∷ param "$rdx" "timer_t *created_timer_id"
        ∷ [])
    ∷ row 0xdf "timer_settime" (
        param "$rdi" "timer_t timer_id"
        ∷ param "$rsi" "int flags"
        ∷ param "$rdx" "const struct itimerspec *new_setting"
        ∷ param "$r10" "struct itimerspec *old_setting"
        ∷ [])
    ∷ row 0xe0 "timer_gettime"
        (param "$rdi" "timer_t timer_id" ∷ param "$rsi" "struct itimerspec *setting" ∷ [])
    ∷ row 0xe1 "timer_getoverrun" (param "$rdi" "timer_t timer_id" ∷ [])
    ∷ row 0xe2 "timer_delete" (param "$rdi" "timer_t timer_id" ∷ [])
    ∷ row 0xe3 "clock_settime"
        (param "$rdi" "const clockid_t which_clock" ∷ param "$rsi" "const struct timespec *tp" ∷ [])
    ∷ row 0xe4 "clock_gettime"
        (param "$rdi" "const clockid_t which_clock" ∷ param "$rsi" "struct timespec *tp" ∷ [])
    ∷ row 0xe5 "clock_getres"
        (param "$rdi" "const clockid_t which_clock" ∷ param "$rsi" "struct timespec *tp" ∷ [])
    ∷ row 0xe6 "clock_nanosleep" (
        param "$rdi" "const clockid_t which_clock"
        ∷ param "$rsi" "int flags"
        ∷ param "$rdx" "const struct timespec *rqtp"
        ∷ param "$r10" "struct timespec *rmtp"
        ∷ [])
    ∷ row 0xe7 "exit_group" (param "$rdi" "int error_code" ∷ [])
    ∷ row 0xe8 "epoll_wait" (
        param "$rdi" "int epfd"
        ∷ param "$rsi" "struct epoll_event *events"
        ∷ param "$rdx" "int maxevents"
        ∷ param "$r10" "int timeout"
        ∷ [])
    ∷ row 0xe9 "epoll_ctl" (
        param "$rdi" "int epfd"
        ∷ param "$rsi" "int op"
        ∷ param "$rdx" "int fd"
        ∷ param "$r10" "struct epoll_event *event"
        ∷ [])
    ∷ row 0xea "tgkill"
        (param "$rdi" "pid_t tgid" ∷ param "$rsi" "pid_t pid" ∷ param "$rdx" "int sig" ∷ [])
    ∷ row 0xeb "utimes" (param "$rdi" "char *filename" ∷ param "$rsi" "struct timeval *utimes" ∷ [])
    ∷ row 0xed "mbind" (
        param "$rdi" "unsigned long start"
        ∷ param "$rsi" "unsigned long len"
        ∷ param "$rdx" "unsigned long mode"
        ∷ param "$r10" "unsigned long *nmask"
        ∷ param "$r8" "unsigned long maxnode"
        ∷ param "$r9" "unsigned flags"
        ∷ [])
    ∷ row 0xee "set_mempolicy" (
        param "$rdi" "int mode"
        ∷ param "$rsi" "unsigned long *nmask"
        ∷ param "$rdx" "unsigned long maxnode"
        ∷ [])
    ∷ row 0xef "get_mempolicy" (
        param "$rdi" "int *policy"
        ∷ param "$rsi" "unsigned long *nmask"
        ∷ param "$rdx" "unsigned long maxnode"
        ∷ param "$r10" "unsigned long addr"
        ∷ param "$r8" "unsigned long flags"
        ∷ [])
    ∷ row 0xf0 "mq_open" (
        param "$rdi" "const char *u_name"
        ∷ param "$rsi" "int oflag"
        ∷ param "$rdx" "umode_t mode"
        ∷ param "$r10" "struct mq_attr *u_attr"
        ∷ [])
    ∷ row 0xf1 "mq_unlink" (param "$rdi" "const char *u_name" ∷ [])
    ∷ row 0xf2 "mq_timedsend" (
        param "$rdi" "mqd_t mqdes"
        ∷ param "$rsi" "const char *u_msg_ptr"
        ∷ param "$rdx" "size_t msg_len"
        ∷ param "$r10" "unsigned int msg_prio"
        ∷ param "$r8" "const struct timespec *u_abs_timeout"
        ∷ [])
    ∷ row 0xf3 "mq_timedreceive" (
        param "$rdi" "mqd_t mqdes"
        ∷ param "$rsi" "char *u_msg_ptr"
        ∷ param "$rdx" "size_t msg_len"
        ∷ param "$r10" "unsigned int *u_msg_prio"
        ∷ param "$r8" "const struct timespec *u_abs_timeout"
        ∷ [])
    ∷ row 0xf4 "mq_notify"
        (param "$rdi" "mqd_t mqdes" ∷ param "$rsi" "const struct sigevent *u_notification" ∷ [])
    ∷ row 0xf5 "mq_getsetattr" (
        param "$rdi" "mqd_t mqdes"
        ∷ param "$rsi" "const struct mq_attr *u_mqstat"
        ∷ param "$rdx" "struct mq_attr *u_omqstat"
        ∷ [])
    ∷ row 0xf6 "kexec_load" (
        param "$rdi" "unsigned long entry"
        ∷ param "$rsi" "unsigned long nr_segments"
        ∷ param "$rdx" "struct kexec_segment *segments"
        ∷ param "$r10" "unsigned long flags"
        ∷ [])
    ∷ row 0xf7 "waitid" (
        param "$rdi" "int which"
        ∷ param "$rsi" "pid_t upid"
        ∷ param "$rdx" "struct siginfo *infop"
        ∷ param "$r10" "int options"
        ∷ param "$r8" "struct rusage *ru"
        ∷ [])
    ∷ row 0xf8 "add_key" (
        param "$rdi" "const char *_type"
        ∷ param "$rsi" "const char *_description"
        ∷ param "$rdx" "const void *_payload"
        ∷ param "$r10" "size_t plen"
        ∷ param "$r8" "key_serial_t ringid"
        ∷ [])
    ∷ row 0xf9 "request_key" (
        param "$rdi" "const char *_type"
        ∷ param "$rsi" "const char *_description"
        ∷ param "$rdx" "const char *_callout_info"
        ∷ param "$r10" "key_serial_t destringid"
        ∷ [])
    ∷ row 0xfa "keyctl" (
        param "$rdi" "int option"
        ∷ param "$rsi" "unsigned long arg2"
        ∷ param "$rdx" "unsigned long arg3"
        ∷ param "$r10" "unsigned long arg4"
        ∷ param "$r8" "unsigned long arg5"
        ∷ [])
    ∷ row 0xfb "ioprio_set"
        (param "$rdi" "int which" ∷ param "$rsi" "int who" ∷ param "$rdx" "int ioprio" ∷ [])
    ∷ row 0xfc "ioprio_get" (param "$rdi" "int which" ∷ param "$rsi" "int who" ∷ [])
    ∷ row 0xfd "inotify_init" ([])
    ∷ row 0xfe "inotify_add_watch"
        (param "$rdi" "int fd" ∷ param "$rsi" "const char *pathname" ∷ param "$rdx" "u32 mask" ∷ [])
    ∷ row 0xff "inotify_rm_watch" (param "$rdi" "int fd" ∷ param "$rsi" "__s32 wd" ∷ [])
    ∷ row 0x100 "migrate_pages" (
        param "$rdi" "pid_t pid"
        ∷ param "$rsi" "unsigned long maxnode"
        ∷ param "$rdx" "const unsigned long *old_nodes"
        ∷ param "$r10" "const unsigned long *new_nodes"
        ∷ [])
    ∷ row 0x101 "openat" (
        param "$rdi" "int dfd"
        ∷ param "$rsi" "const char *filename"
        ∷ param "$rdx" "int flags"
        ∷ param "$r10" "umode_t mode"
        ∷ [])
    ∷ row 0x102 "mkdirat" (
        param "$rdi" "int dfd"
        ∷ param "$rsi" "const char *pathname"
        ∷ param "$rdx" "umode_t mode"
        ∷ [])
    ∷ row 0x103 "mknodat" (
        param "$rdi" "int dfd"
        ∷ param "$rsi" "const char *filename"
        ∷ param "$rdx" "umode_t mode"
        ∷ param "$r10" "unsigned dev"
        ∷ [])
    ∷ row 0x104 "fchownat" (
        param "$rdi" "int dfd"
        ∷ param "$rsi" "const char *filename"
        ∷ param "$rdx" "uid_t user"
        ∷ param "$r10" "gid_t group"
        ∷ param "$r8" "int flag"
        ∷ [])
    ∷ row 0x105 "futimesat" (
        param "$rdi" "int dfd"
        ∷ param "$rsi" "const char *filename"
        ∷ param "$rdx" "struct timeval *utimes"
        ∷ [])
    ∷ row 0x106 "newfstatat" (
        param "$rdi" "int dfd"
        ∷ param "$rsi" "const char *filename"
        ∷ param "$rdx" "struct stat *statbuf"
        ∷ param "$r10" "int flag"
        ∷ [])
    ∷ row 0x107 "unlinkat" (
        param "$rdi" "int dfd" ∷ param "$rsi" "const char *pathname" ∷ param "$rdx" "int flag" ∷ [])
    ∷ row 0x108 "renameat" (
        param "$rdi" "int olddfd"
        ∷ param "$rsi" "const char *oldname"
        ∷ param "$rdx" "int newdfd"
        ∷ param "$r10" "const char *newname"
        ∷ [])
    ∷ row 0x109 "linkat" (
        param "$rdi" "int olddfd"
        ∷ param "$rsi" "const char *oldname"
        ∷ param "$rdx" "int newdfd"
        ∷ param "$r10" "const char *newname"
        ∷ param "$r8" "int flags"
        ∷ [])
    ∷ row 0x10a "symlinkat" (
        param "$rdi" "const char *oldname"
        ∷ param "$rsi" "int newdfd"
        ∷ param "$rdx" "const char *newname"
        ∷ [])
    ∷ row 0x10b "readlinkat" (
        param "$rdi" "int dfd"
        ∷ param "$rsi" "const char *pathname"
        ∷ param "$rdx" "char *buf"
        ∷ param "$r10" "int bufsiz"
        ∷ [])
    ∷ row 0x10c "fchmodat" (
        param "$rdi" "int dfd"
        ∷ param "$rsi" "const char *filename"
        ∷ param "$rdx" "umode_t mode"
        ∷ [])
    ∷ row 0x10d "faccessat" (
        param "$rdi" "int dfd" ∷ param "$rsi" "const char *filename" ∷ param "$rdx" "int mode" ∷ [])
    ∷ row 0x10e "pselect6" (
        param "$rdi" "int n"
        ∷ param "$rsi" "fd_set *inp"
        ∷ param "$rdx" "fd_set *outp"
        ∷ param "$r10" "fd_set *exp"
        ∷ param "$r8" "struct timespec *tsp"
        ∷ param "$r9" "void *sig"
        ∷ [])
    ∷ []
