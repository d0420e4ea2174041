-- ===== src/SyscallArgs/Tables/X8664/From271.antt =====
-- scripts/syscall_args/syscall-tables/X86_64.py: the calls from 0x10f to 0x138.
use gef_extras.Common.{[], ◌∷◌}
use gef_extras.SyscallArgs.{Table}
use gef_extras.SyscallArgs.Tables.{row, param}

abbrev pub from_271 : Table
from_271 =
    row 0x10f "ppoll" (
      param "$rdi" "struct pollfd *ufds"
      ∷ param "$rsi" "unsigned int nfds"
      ∷ param "$rdx" "struct timespec *tsp"
      ∷ param "$r10" "const sigset_t *sigmask"
      ∷ param "$r8" "size_t sigsetsize"
      ∷ [])
    ∷ row 0x110 "unshare" (param "$rdi" "unsigned long unshare_flags" ∷ [])
    ∷ row 0x111 "set_robust_list"
        (param "$rdi" "struct robust_list_head *head" ∷ param "$rsi" "size_t len" ∷ [])
    ∷ row 0x112 "get_robust_list" (
        param "$rdi" "int pid"
        ∷ param "$rsi" "struct robust_list_head * *head_ptr"
        ∷ param "$rdx" "size_t *len_ptr"
        ∷ [])
    ∷ row 0x113 "splice" (
        param "$rdi" "int fd_in"
        ∷ param "$rsi" "loff_t *off_in"
        ∷ param "$rdx" "int fd_out"
        ∷ param "$r10" "loff_t *off_out"
        ∷ param "$r8" "size_t len"
        ∷ param "$r9" "unsigned int flags"
        ∷ [])
    ∷ row 0x114 "tee" (
        param "$rdi" "int fdin"
        ∷ param "$rsi" "int fdout"
        ∷ param "$rdx" "size_t len"
        ∷ param "$r10" "unsigned int flags"
        ∷ [])
    ∷ row 0x115 "sync_file_range"
        (param "$rdi" "loff_t offset loff_t nbytes" ∷ param "$rsi" "unsigned int flags" ∷ [])
    ∷ row 0x116 "vmsplice" (
        param "$rdi" "int fd"
        ∷ param "$rsi" "const struct iovec *iov"
        ∷ param "$rdx" "unsigned long nr_segs"
        ∷ param "$r10" "unsigned int flags"
        ∷ [])
    ∷ row 0x117 "move_pages" (
        param "$rdi" "pid_t pid"
        ∷ param "$rsi" "unsigned long nr_pages"
        ∷ param "$rdx" "const void * *pages"
        ∷ param "$r10" "const int *nodes"
        ∷ param "$r8" "int *status"
        ∷ param "$r9" "int flags"
        ∷ [])
    ∷ row 0x118 "utimensat" (
        param "$rdi" "int dfd"
        ∷ param "$rsi" "const char *filename"
        ∷ param "$rdx" "struct timespec *utimes"
        ∷ param "$r10" "int flags"
        ∷ [])
    ∷ row 0x119 "epoll_pwait" (
        param "$rdi" "int epfd"
        ∷ param "$rsi" "struct epoll_event *events"
        ∷ param "$rdx" "int maxevents"
        ∷ param "$r10" "int timeout"
        ∷ param "$r8" "const sigset_t *sigmask"
        ∷ param "$r9" "size_t sigsetsize"
        ∷ [])
    ∷ row 0x11a "signalfd" (
        param "$rdi" "int ufd"
        ∷ param "$rsi" "sigset_t *user_mask"
        ∷ param "$rdx" "size_t sizemask"
        ∷ [])
    ∷ row 0x11b "timerfd_create" (param "$rdi" "int clockid" ∷ param "$rsi" "int flags" ∷ [])
    ∷ row 0x11c "eventfd" (param "$rdi" "unsigned int count" ∷ [])
    ∷ row 0x11d "fallocate" (param "$rdi" "int mode loff_t offset" ∷ param "$rsi" "loff_t len" ∷ [])
    ∷ row 0x11e "timerfd_settime" (
        param "$rdi" "int ufd"
        ∷ param "$rsi" "int flags"
        ∷ param "$rdx" "const struct itimerspec *utmr"
        ∷ param "$r10" "struct itimerspec *otmr"
        ∷ [])
    ∷ row 0x11f "timerfd_gettime"
        (param "$rdi" "int ufd" ∷ param "$rsi" "struct itimerspec *otmr" ∷ [])
    ∷ row 0x120 "accept4" (
        param "$rdi" "int fd"
        ∷ param "$rsi" "struct sockaddr *upeer_sockaddr"
        ∷ param "$rdx" "int *upeer_addrlen"
        ∷ param "$r10" "int flags"
        ∷ [])
    ∷ row 0x121 "signalfd4" (
        param "$rdi" "int ufd"
        ∷ param "$rsi" "sigset_t *user_mask"
        ∷ param "$rdx" "size_t sizemask"
        ∷ param "$r10" "int flags"
        ∷ [])
    ∷ row 0x122 "eventfd2" (param "$rdi" "unsigned int count" ∷ param "$rsi" "int flags" ∷ [])
    ∷ row 0x123 "epoll_create1" (param "$rdi" "int flags" ∷ [])
    ∷ row 0x124 "dup3" (
        param "$rdi" "unsigned int oldfd"
        ∷ param "$rsi" "unsigned int newfd"
        ∷ param "$rdx" "int flags"
        ∷ [])
    ∷ row 0x125 "pipe2" (param "$rdi" "int *fildes" ∷ param "$rsi" "int flags" ∷ [])
    ∷ row 0x126 "inotify_init1" (param "$rdi" "int flags" ∷ [])
    ∷ row 0x127 "preadv" (
        param "$rdi" "unsigned long fd"
        ∷ param "$rsi" "const struct iovec *vec"
        ∷ param "$rdx" "unsigned long vlen"
        ∷ param "$r10" "unsigned long pos_l"
        ∷ param "$r8" "unsigned long pos_h"
        ∷ [])
    ∷ row 0x128 "pwritev" (
        param "$rdi" "unsigned long fd"
        ∷ param "$rsi" "const struct iovec *vec"
        ∷ param "$rdx" "unsigned long vlen"
        ∷ param "$r10" "unsigned long pos_l"
        ∷ param "$r8" "unsigned long pos_h"
        ∷ [])
    ∷ row 0x129 "rt_tgsigqueueinfo" (
        param "$rdi" "pid_t tgid"
        ∷ param "$rsi" "pid_t pid"
        ∷ param "$rdx" "int sig"
        ∷ param "$r10" "siginfo_t *uinfo"
        ∷ [])
    ∷ row 0x12a "perf_event_open" (
        param "$rdi" "struct perf_event_attr *attr_uptr"
        ∷ param "$rsi" "pid_t pid"
        ∷ param "$rdx" "int cpu"
        ∷ param "$r10" "int group_fd"
        ∷ param "$r8" "unsigned long flags"
        ∷ [])
    ∷ row 0x12b "recvmmsg" (
        param "$rdi" "int fd"
        ∷ param "$rsi" "struct mmsghdr *mmsg"
        ∷ param "$rdx" "unsigned int vlen"
        ∷ param "$r10" "unsigned int flags"
        ∷ param "$r8" "struct timespec *timeout"
        ∷ [])
    ∷ row 0x12c "fanotify_init"
        (param "$rdi" "unsigned int flags" ∷ param "$rsi" "unsigned int event_f_flags" ∷ [])
    ∷ row 0x12d "fanotify_mark" (
        param "$rdi" "unsigned int flags __u64 mask"
        ∷ param "$rsi" "int dfd const char *pathname"
        ∷ [])
    ∷ row 0x12e "prlimit64" (
        param "$rdi" "pid_t pid"
        ∷ param "$rsi" "unsigned int resource"
        ∷ param "$rdx" "const struct rlimit64 *new_rlim"
        ∷ param "$r10" "struct rlimit64 *old_rlim"
        ∷ [])
    ∷ row 0x12f "name_to_handle_at" (
        param "$rdi" "int dfd"
        ∷ param "$rsi" "const char *name"
        ∷ param "$rdx" "struct file_handle *handle"
        ∷ param "$r10" "int *mnt_id"
        ∷ param "$r8" "int flag"
        ∷ [])
    ∷ row 0x130 "open_by_handle_at" (
        param "$rdi" "int mountdirfd"
        ∷ param "$rsi" "struct file_handle *handle"
        ∷ param "$rdx" "int flags"
        ∷ [])
    ∷ row 0x131 "clock_adjtime"
        (param "$rdi" "const clockid_t which_clock" ∷ param "$rsi" "struct timex *utx" ∷ [])
    ∷ row 0x132 "syncfs" (param "$rdi" "int fd" ∷ [])
    ∷ row 0x133 "sendmmsg" (
        param "$rdi" "int fd"
        ∷ param "$rsi" "struct mmsghdr *mmsg"
        ∷ param "$rdx" "unsigned int vlen"
        ∷ param "$r10" "unsigned int flags"
        ∷ [])
    ∷ row 0x134 "setns" (param "$rdi" "int fd" ∷ param "$rsi" "int nstype" ∷ [])
    ∷ row 0x135 "getcpu" (
        param "$rdi" "unsigned *cpup"
        ∷ param "$rsi" "unsigned *nodep"
        ∷ param "$rdx" "struct getcpu_cache *unused"
        ∷ [])
    ∷ row 0x136 "process_vm_readv" (
        param "$rdi" "pid_t pid"
        ∷ param "$rsi" "const struct iovec *lvec"
        ∷ param "$rdx" "unsigned long liovcnt"
        ∷ param "$r10" "const struct iovec *rvec"
        ∷ param "$r8" "unsigned long riovcnt"
        ∷ param "$r9" "unsigned long flags"
        ∷ [])
    ∷ row 0x137 "process_vm_writev" (
        param "$rdi" "pid_t pid"
        ∷ param "$rsi" "const struct iovec *lvec"
        ∷ param "$rdx" "unsigned long liovcnt"
        ∷ param "$r10" "const struct iovec *rvec"
        ∷ param "$r8" "unsigned long riovcnt"
        ∷ param "$r9" "unsigned long flags"
        ∷ [])
    ∷ row 0x138 "kcmp" (
        param "$rdi" "pid_t pid1"
        ∷ param "$rsi" "pid_t pid2"
        ∷ param "$rdx" "int type"
        ∷ param "$r10" "unsigned long idx1"
        ∷ param "$r8" "unsigned long idx2"
        ∷ [])
    ∷ []
