-- ===== src/SyscallArgs/Tables/X8632/From277.antt =====
-- scripts/syscall_args/syscall-tables/X86.py: the calls from 0x115 to 0x155.
use gef_extras.Common.{[], ◌∷◌}
use gef_extras.SyscallArgs.{Table}
use gef_extras.SyscallArgs.Tables.{row, param}

abbrev pub from_277 : Table
from_277 =
    row 0x115 "mq_open" (
      param "$ebx" "const char *u_name"
      ∷ param "$ecx" "int oflag"
      ∷ param "$edx" "umode_t mode"
      ∷ param "$esi" "struct mq_attr *u_attr"
      ∷ [])
    ∷ row 0x116 "mq_unlink" (param "$ebx" "const char *u_name" ∷ [])
    ∷ row 0x117 "mq_timedsend" (
        param "$ebx" "mqd_t mqdes"
        ∷ param "$ecx" "const char *u_msg_ptr"
        ∷ param "$edx" "size_t msg_len"
        ∷ param "$esi" "unsigned int msg_prio"
        ∷ param "$edi" "const struct timespec *u_abs_timeout"
        ∷ [])
    ∷ row 0x118 "mq_timedreceive" (
        param "$ebx" "mqd_t mqdes"
        ∷ param "$ecx" "char *u_msg_ptr"
        ∷ param "$edx" "size_t msg_len"
        ∷ param "$esi" "unsigned int *u_msg_prio"
        ∷ param "$edi" "const struct timespec *u_abs_timeout"
        ∷ [])
    ∷ row 0x119 "mq_notify"
        (param "$ebx" "mqd_t mqdes" ∷ param "$ecx" "const struct sigevent *u_notification" ∷ [])
    ∷ row 0x11a "mq_getsetattr" (
        param "$ebx" "mqd_t mqdes"
        ∷ param "$ecx" "const struct mq_attr *u_mqstat"
        ∷ param "$edx" "struct mq_attr *u_omqstat"
        ∷ [])
    ∷ row 0x11b "kexec_load" (
        param "$ebx" "unsigned long entry"
        ∷ param "$ecx" "unsigned long nr_segments"
        ∷ param "$edx" "struct kexec_segment *segments"
        ∷ param "$esi" "unsigned long flags"
        ∷ [])
    ∷ row 0x11c "waitid" (
        param "$ebx" "int which"
        ∷ param "$ecx" "pid_t upid"
        ∷ param "$edx" "struct siginfo *infop"
        ∷ param "$esi" "int options"
        ∷ param "$edi" "struct rusage *ru"
        ∷ [])
    ∷ row 0x11e "add_key" (
        param "$ebx" "const char *_type"
        ∷ param "$ecx" "const char *_description"
        ∷ param "$edx" "const void *_payload"
        ∷ param "$esi" "size_t plen"
        ∷ param "$edi" "key_serial_t ringid"
        ∷ [])
    ∷ row 0x11f "request_key" (
        param "$ebx" "const char *_type"
        ∷ param "$ecx" "const char *_description"
        ∷ param "$edx" "const char *_callout_info"
        ∷ param "$esi" "key_serial_t destringid"
        ∷ [])
    ∷ row 0x120 "keyctl" (
        param "$ebx" "int option"
        ∷ param "$ecx" "unsigned long arg2"
        ∷ param "$edx" "unsigned long arg3"
        ∷ param "$esi" "unsigned long arg4"
        ∷ param "$edi" "unsigned long arg5"
        ∷ [])
    ∷ row 0x121 "ioprio_set"
        (param "$ebx" "int which" ∷ param "$ecx" "int who" ∷ param "$edx" "int ioprio" ∷ [])
    ∷ row 0x122 "ioprio_get" (param "$ebx" "int which" ∷ param "$ecx" "int who" ∷ [])
    ∷ row 0x123 "inotify_init" ([])
    ∷ row 0x124 "inotify_add_watch"
        (param "$ebx" "int fd" ∷ param "$ecx" "const char *pathname" ∷ param "$edx" "u32 mask" ∷ [])
    ∷ row 0x125 "inotify_rm_watch" (param "$ebx" "int fd" ∷ param "$ecx" "__s32 wd" ∷ [])
    ∷ row 0x126 "migrate_pages" (
        param "$ebx" "pid_t pid"
        ∷ param "$ecx" "unsigned long maxnode"
        ∷ param "$edx" "const unsigned long *old_nodes"
        ∷ param "$esi" "const unsigned long *new_nodes"
        ∷ [])
    ∷ row 0x127 "openat" (
        param "$ebx" "int dfd"
        ∷ param "$ecx" "const char *filename"
        ∷ param "$edx" "int flags"
        ∷ param "$esi" "umode_t mode"
        ∷ [])
    ∷ row 0x128 "mkdirat" (
        param "$ebx" "int dfd"
        ∷ param "$ecx" "const char *pathname"
        ∷ param "$edx" "umode_t mode"
        ∷ [])
    ∷ row 0x129 "mknodat" (
        param "$ebx" "int dfd"
        ∷ param "$ecx" "const char *filename"
        ∷ param "$edx" "umode_t mode"
        ∷ param "$esi" "unsigned dev"
        ∷ [])
    ∷ row 0x12a "fchownat" (
        param "$ebx" "int dfd"
        ∷ param "$ecx" "const char *filename"
        ∷ param "$edx" "uid_t user"
        ∷ param "$esi" "gid_t group"
        ∷ param "$edi" "int flag"
        ∷ [])
    ∷ row 0x12b "futimesat" (
        param "$ebx" "int dfd"
        ∷ param "$ecx" "const char *filename"
        ∷ param "$edx" "struct timeval *utimes"
        ∷ [])
    ∷ row 0x12c "fstatat64" (
        param "$ebx" "int dfd"
        ∷ param "$ecx" "const char *filename"
        ∷ param "$edx" "struct stat64 *statbuf"
        ∷ param "$esi" "int flag"
        ∷ [])
    ∷ row 0x12d "unlinkat" (
        param "$ebx" "int dfd" ∷ param "$ecx" "const char *pathname" ∷ param "$edx" "int flag" ∷ [])
    ∷ row 0x12e "renameat" (
        param "$ebx" "int olddfd"
        ∷ param "$ecx" "const char *oldname"
        ∷ param "$edx" "int newdfd"
        ∷ param "$esi" "const char *newname"
        ∷ [])
    ∷ row 0x12f "linkat" (
        param "$ebx" "int olddfd"
        ∷ param "$ecx" "const char *oldname"
        ∷ param "$edx" "int newdfd"
        ∷ param "$esi" "const char *newname"
        ∷ param "$edi" "int flags"
        ∷ [])
    ∷ row 0x130 "symlinkat" (
        param "$ebx" "const char *oldname"
        ∷ param "$ecx" "int newdfd"
        ∷ param "$edx" "const char *newname"
        ∷ [])
    ∷ row 0x131 "readlinkat" (
        param "$ebx" "int dfd"
        ∷ param "$ecx" "const char *pathname"
        ∷ param "$edx" "char *buf"
        ∷ param "$esi" "int bufsiz"
        ∷ [])
    ∷ row 0x132 "fchmodat" (
        param "$ebx" "int dfd"
        ∷ param "$ecx" "const char *filename"
        ∷ param "$edx" "umode_t mode"
        ∷ [])
    ∷ row 0x133 "faccessat" (
        param "$ebx" "int dfd" ∷ param "$ecx" "const char *filename" ∷ param "$edx" "int mode" ∷ [])
    ∷ row 0x134 "pselect6" (
        param "$ebx" "int n"
        ∷ param "$ecx" "fd_set *inp"
        ∷ param "$edx" "fd_set *outp"
        ∷ param "$esi" "fd_set *exp"
        ∷ param "$edi" "struct timespec *tsp"
        ∷ param "$ebp" "void *sig"
        ∷ [])
    ∷ row 0x135 "ppoll" (
        param "$ebx" "struct pollfd *ufds"
        ∷ param "$ecx" "unsigned int nfds"
        ∷ param "$edx" "struct timespec *tsp"
        ∷ param "$esi" "const sigset_t *sigmask"
        ∷ param "$edi" "size_t sigsetsize"
        ∷ [])
    ∷ row 0x136 "unshare" (param "$ebx" "unsigned long unshare_flags" ∷ [])
    ∷ row 0x137 "set_robust_list"
        (param "$ebx" "struct robust_list_head *head" ∷ param "$ecx" "size_t len" ∷ [])
    ∷ row 0x138 "get_robust_list" (
        param "$ebx" "int pid"
        ∷ param "$ecx" "struct robust_list_head * *head_ptr"
        ∷ param "$edx" "size_t *len_ptr"
        ∷ [])
    ∷ row 0x139 "splice" (
        param "$ebx" "int fd_in"
        ∷ param "$ecx" "loff_t *off_in"
        ∷ param "$edx" "int fd_out"
        ∷ param "$esi" "loff_t *off_out"
        ∷ param "$edi" "size_t len"
        ∷ param "$ebp" "unsigned int flags"
        ∷ [])
    ∷ row 0x13a "sync_file_range"
        (param "$ebx" "loff_t offset loff_t nbytes" ∷ param "$ecx" "unsigned int flags" ∷ [])
    ∷ row 0x13b "tee" (
        param "$ebx" "int fdin"
        ∷ param "$ecx" "int fdout"
        ∷ param "$edx" "size_t len"
        ∷ param "$esi" "unsigned int flags"
        ∷ [])
    ∷ row 0x13c "vmsplice" (
        param "$ebx" "int fd"
        ∷ param "$ecx" "const struct iovec *iov"
        ∷ param "$edx" "unsigned long nr_segs"
        ∷ param "$esi" "unsigned int flags"
        ∷ [])
    ∷ row 0x13d "move_pages" (
        param "$ebx" "pid_t pid"
        ∷ param "$ecx" "unsigned long nr_pages"
        ∷ param "$edx" "const void * *pages"
        ∷ param "$esi" "const int *nodes"
        ∷ param "$edi" "int *status"
        ∷ param "$ebp" "int flags"
        ∷ [])
    ∷ row 0x13e "getcpu" (
        param "$ebx" "unsigned *cpup"
        ∷ param "$ecx" "unsigned *nodep"
        ∷ param "$edx" "struct getcpu_cache *unused"
        ∷ [])
    ∷ row 0x13f "epoll_pwait" (
        param "$ebx" "int epfd"
        ∷ param "$ecx" "struct epoll_event *events"
        ∷ param "$edx" "int maxevents"
        ∷ param "$esi" "int timeout"
        ∷ param "$edi" "const sigset_t *sigmask"
        ∷ param "$ebp" "size_t sigsetsize"
        ∷ [])
    ∷ row 0x140 "utimensat" (
        param "$ebx" "int dfd"
        ∷ param "$ecx" "const char *filename"
        ∷ param "$edx" "struct timespec *utimes"
        ∷ param "$esi" "int flags"
        ∷ [])
    ∷ row 0x141 "signalfd" (
        param "$ebx" "int ufd"
        ∷ param "$ecx" "sigset_t *user_mask"
        ∷ param "$edx" "size_t sizemask"
        ∷ [])
    ∷ row 0x142 "timerfd_create" (param "$ebx" "int clockid" ∷ param "$ecx" "int flags" ∷ [])
    ∷ row 0x143 "eventfd" (param "$ebx" "unsigned int count" ∷ [])
    ∷ row 0x144 "fallocate" (param "$ebx" "int mode loff_t offset" ∷ param "$ecx" "loff_t len" ∷ [])
    ∷ row 0x145 "timerfd_settime" (
        param "$ebx" "int ufd"
        ∷ param "$ecx" "int flags"
        ∷ param "$edx" "const struct itimerspec *utmr"
        ∷ param "$esi" "struct itimerspec *otmr"
        ∷ [])
    ∷ row 0x146 "timerfd_gettime"
        (param "$ebx" "int ufd" ∷ param "$ecx" "struct itimerspec *otmr" ∷ [])
    ∷ row 0x147 "signalfd4" (
        param "$ebx" "int ufd"
        ∷ param "$ecx" "sigset_t *user_mask"
        ∷ param "$edx" "size_t sizemask"
        ∷ param "$esi" "int flags"
        ∷ [])
    ∷ row 0x148 "eventfd2" (param "$ebx" "unsigned int count" ∷ param "$ecx" "int flags" ∷ [])
    ∷ row 0x149 "epoll_create1" (param "$ebx" "int flags" ∷ [])
    ∷ row 0x14a "dup3" (
        param "$ebx" "unsigned int oldfd"
        ∷ param "$ecx" "unsigned int newfd"
        ∷ param "$edx" "int flags"
        ∷ [])
    ∷ row 0x14b "pipe2" (param "$ebx" "int *fildes" ∷ param "$ecx" "int flags" ∷ [])
    ∷ row 0x14c "inotify_init1" (param "$ebx" "int flags" ∷ [])
    ∷ row 0x14d "preadv" (
        param "$ebx" "unsigned long fd"
        ∷ param "$ecx" "const struct iovec *vec"
        ∷ param "$edx" "unsigned long vlen"
        ∷ param "$esi" "unsigned long pos_l"
        ∷ param "$edi" "unsigned long pos_h"
        ∷ [])
    ∷ row 0x14e "pwritev" (
        param "$ebx" "unsigned long fd"
        ∷ param "$ecx" "const struct iovec *vec"
        ∷ param "$edx" "unsigned long vlen"
        ∷ param "$esi" "unsigned long pos_l"
        ∷ param "$edi" "unsigned long pos_h"
        ∷ [])
    ∷ row 0x14f "rt_tgsigqueueinfo" (
        param "$ebx" "pid_t tgid"
        ∷ param "$ecx" "pid_t pid"
        ∷ param "$edx" "int sig"
        ∷ param "$esi" "siginfo_t *uinfo"
        ∷ [])
    ∷ row 0x150 "perf_event_open" (
        param "$ebx" "struct perf_event_attr *attr_uptr"
        ∷ param "$ecx" "pid_t pid"
        ∷ param "$edx" "int cpu"
        ∷ param "$esi" "int group_fd"
        ∷ param "$edi" "unsigned long flags"
        ∷ [])
    ∷ row 0x151 "recvmmsg" (
        param "$ebx" "int fd"
        ∷ param "$ecx" "struct mmsghdr *mmsg"
        ∷ param "$edx" "unsigned int vlen"
        ∷ param "$esi" "unsigned int flags"
        ∷ param "$edi" "struct timespec *timeout"
        ∷ [])
    ∷ row 0x152 "fanotify_init"
        (param "$ebx" "unsigned int flags" ∷ param "$ecx" "unsigned int event_f_flags" ∷ [])
    ∷ row 0x153 "fanotify_mark" (
        param "$ebx" "unsigned int flags __u64 mask"
        ∷ param "$ecx" "int dfd const char *pathname"
        ∷ [])
    ∷ row 0x154 "prlimit64" (
        param "$ebx" "pid_t pid"
        ∷ param "$ecx" "unsigned int resource"
        ∷ param "$edx" "const struct rlimit64 *new_rlim"
        ∷ param "$esi" "struct rlimit64 *old_rlim"
        ∷ [])
    ∷ row 0x155 "name_to_handle_at" (
        param "$ebx" "int dfd"
        ∷ param "$ecx" "const char *name"
        ∷ param "$edx" "struct file_handle *handle"
        ∷ param "$esi" "int *mnt_id"
        ∷ param "$edi" "int flag"
        ∷ [])
    ∷ []
